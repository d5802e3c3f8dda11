-- ===== src/Watch/Queue.antt =====
-- client/watch.go: the event queue of a subscriber (`enqueueLatestEvent`, `processEvents`,
-- `closeEventQueue`, `resetForReconnect`), as the interleaving of its goroutines.
pub mod Order
pub mod Latest
mod Tests
use bscp_go.Prelude.{
  ℕ, ◌+◌, ◌-◌, Bool, true, false, Option, none, some, List, [], ◌∷◌, ◌++◌, ◌==◌, if◌then◌else◌,
}

-- Where the one goroutine that holds `enqueueMutex` stands in `enqueueLatestEvent`.
pub data Pc {ℓ} (A : Type ℓ) : Type ℓ where
  idle : Pc A
  checked : A → Pc A  -- before the outer `select`
  full : A → Pc A  -- before the inner `select`
  drained : A → Pc A  -- before the send that follows the drain

-- `slot` is the buffer of the current channel, of capacity 1, and `shut` says that it is closed.
-- `closed` is the atomic flag, and `closers` counts the goroutines between the compare-and-swap and
-- the `close`. `left` holds what is buffered in earlier channels. `handled` lists the events that
-- were taken for processing, and `arrived` those that came, both in order.
pub record Queue {ℓ} (A : Type ℓ) : Type ℓ where
  pub slot : Option A
  pub shut : Bool
  pub closed : Bool
  pub closers : ℕ
  pub left : List A
  pub pc : Pc A
  pub handled : List A
  pub arrived : List A

-- `stuck`: the goroutine cannot make this step now.
pub data Next {ℓ} (A : Type ℓ) : Type ℓ where
  ran : Queue A → Next A
  stuck panics : Next A

module _ {ℓ} {A : Type ℓ} where
  abbrev pub opened : Queue A
  opened = record {
    slot = none;
    shut = false;
    closed = false;
    closers = 0;
    left = [];
    pc = idle;
    handled = [];
    arrived = [];
  }

  -- `enqueueLatestEvent` takes the mutex and tests the flag.
  unfoldable pub enter : A → Queue A → Next A
  enter e q = elim q.pc [
    | idle ↦
        if q.closed
        then ran (record q { arrived = q.arrived ++ e ∷ [] })
        else ran (record q { pc = checked e; arrived = q.arrived ++ e ∷ [] })
    | _ ↦ stuck
  ]

  -- A send on a closed channel panics, also in a `select`.
  unfoldable pub send : A → Queue A → Next A
  send e q =
      if q.shut
      then panics
      else elim q.slot [ none ↦ ran (record q { slot = some e; pc = idle }) | some old ↦ stuck ]

  -- The outer `select`: send, or go on to the inner one if the buffer is full.
  unfoldable pub outer_select : A → Queue A → Next A
  unfolding send
  outer_select e q =
      if q.shut
      then panics
      else elim q.slot [ none ↦ send e q | some old ↦ ran (record q { pc = full e }) ]

  -- The inner `select`: a receive from an empty closed channel yields nil at once; from an empty
  -- open one it would wait, so that `default` is taken and the new event is given up.
  unfoldable pub inner_select : A → Queue A → Next A
  inner_select e q = elim q.slot [
    | some old ↦ ran (record q { slot = none; pc = drained e })
    | none ↦ if q.shut then ran (record q { pc = drained e }) else ran (record q { pc = idle })
  ]

  -- The next step of the goroutine that holds the mutex.
  unfoldable pub go_on : Pc A → Queue A → Next A
  unfolding outer_select inner_select send
  go_on idle q = stuck
  go_on (checked e) q = outer_select e q
  go_on (full e) q = inner_select e q
  go_on (drained e) q = send e q

  -- `processEvents` takes the buffered event of the current channel.
  pub consume : Queue A → Next A
  consume q = elim q.slot [
    | none ↦ stuck
    | some e ↦ ran (record q { slot = none; handled = q.handled ++ e ∷ [] })
  ]

  -- The goroutine of an earlier channel takes the event that was left in it.
  pub consume_left : Queue A → Next A
  consume_left q = elim q.left [
    | [] ↦ stuck
    | e ∷ es ↦ ran (record q { left = es; handled = q.handled ++ e ∷ [] })
  ]

  -- `closeEventQueue`: the compare-and-swap, and then the close. It takes no mutex.
  unfoldable pub swap_closed : Queue A → Next A
  swap_closed q =
      if q.closed then ran q else ran (record q { closed = true; closers = q.closers + 1 })

  unfoldable pub close_channel : Queue A → Next A
  close_channel q =
      if q.closers == 0
      then stuck
      else if q.shut
      then panics
      else ran (record q { shut = true; closers = q.closers - 1 })

  abbrev pub slot_list : Option A → List A
  slot_list none = []
  slot_list (some e) = e ∷ []

  -- `resetForReconnect`, under the mutex: a new channel, with a goroutine of its own.
  unfoldable pub reset_for_reconnect : Queue A → Next A
  reset_for_reconnect q = elim q.pc [
    | idle ↦
        if q.closed
        then ran (record q {
          closed = false;
          slot = none;
          shut = false;
          left = q.left ++ slot_list q.slot;
        })
        else ran q
    | _ ↦ stuck
  ]

-- One step of some goroutine.
pub data Move {ℓ} (A : Type ℓ) : Type ℓ where
  arrive : A → Move A
  proceed handle handle_left swap shut_channel reset : Move A

module _ {ℓ} {A : Type ℓ} where
  unfoldable pub step : Move A → Queue A → Next A
  unfolding enter go_on consume consume_left swap_closed close_channel reset_for_reconnect
  step (arrive e) q = enter e q
  step proceed q = go_on q.pc q
  step handle q = consume q
  step handle_left q = consume_left q
  step swap q = swap_closed q
  step shut_channel q = close_channel q
  step reset q = reset_for_reconnect q

  infixl 5 ◌>>=◌
  abbrev pub ◌>>=◌ : Next A → (Queue A → Next A) → Next A
  ran q >>= f = f q
  stuck >>= f = stuck
  panics >>= f = panics

  unfoldable pub run : List (Move A) → Queue A → Next A
  unfolding step
  run [] q = ran q
  run (m ∷ ms) q = step m q >>= run ms
