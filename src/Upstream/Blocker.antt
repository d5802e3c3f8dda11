-- ===== src/Upstream/Blocker.antt =====
-- internal/upstream/wait.go: the blocker that holds requests back during a reconnection.
pub mod Waiters
use bscp_go.Prelude.{
  ℕ, ◌+◌, Bool, true, false, not, ◌&&◌, ◌||◌, Option, none, some, ltb, leb, ◌==◌, if◌then◌else◌,
}

-- Channels are numbered in the order in which they are made. `signal` is `none` while the field is
-- nil; `made` counts the channels so far, and `closed` says which of them are closed.
pub record Blocker : Type 0 where
  pub state : Bool
  pub signal : Option ℕ
  pub made : ℕ
  pub closed : ℕ → Bool

unfoldable pub init_blocker : Blocker
init_blocker = record { state = false; signal = none; made = 0; closed = λ c. false }

abbrev pub close : (ℕ → Bool) → ℕ → ℕ → Bool
close closed c d = if c == d then true else closed d

-- The two stores of `TryBlock` after its test: a reader without the mutex can come between them.
pub store_state : Blocker → Blocker
store_state bl = record bl { state = true }

pub make_signal : Blocker → Blocker
make_signal bl = record bl { signal = some bl.made; made = bl.made + 1 }

pub try_block : Blocker → Bool × Blocker
unfolding store_state make_signal
try_block bl = if bl.state then (false, bl) else (true, make_signal (store_state bl))

-- `none` is the panic of closing a nil channel, or one that is closed.
pub close_signal : Blocker → Option Blocker
close_signal bl = elim bl.signal [
  | none ↦ none
  | some c ↦ if bl.closed c then none else some (record bl { closed = close bl.closed c })
]

unfoldable pub unblock : Blocker → Option Blocker
unfolding close_signal
unblock bl = if not bl.state then some bl else close_signal (record bl { state = false })

-- What a request does at the blocker: it passes, or it waits for the channel that it read (`none`
-- is the nil channel, on which a receive never ends).
pub data Wait : Type 0 where
  pass : Wait
  receive : Option ℕ → Wait

-- The test that `WaitMS` and `WaitWithContext` begin with, and the read of `bl.signal` in `select`, which
-- comes later: the first blocker is that of the test, the second that of the read.
pub wait : Blocker → Blocker → Wait
wait at_test at_read = if not at_test.state then pass else receive at_read.signal

-- How a wait ends: released, given up (timeout, or the context is done), or not yet.
pub data Waited : Type 0 where
  released given_up waiting : Waited

abbrev pub ready : Blocker → Option ℕ → Bool
ready bl none = false
ready bl (some c) = bl.closed c

-- The `select` of `WaitWithContext`: with both cases ready the choice is Go's, here `prefer_done`.
pub wait_with_context : Blocker → Wait → Bool → Bool → Waited
wait_with_context bl pass done prefer_done = released
wait_with_context bl (receive c) done prefer_done =
    if done && (prefer_done || not (ready bl c))
    then given_up
    else if ready bl c
    then released
    else waiting

-- `WaitMS`: the timer runs for `timeout_ms` nanoseconds, since `time.Duration` counts these.
-- `elapsed` is the time waited so far, in nanoseconds.
pub wait_ms : Blocker → Wait → ℕ → ℕ → Bool → Waited
unfolding wait_with_context
wait_ms bl pass timeout_ms elapsed prefer_timer = released
wait_ms bl (receive c) timeout_ms elapsed prefer_timer =
    if ltb 0 timeout_ms
    then wait_with_context bl (receive c) (leb timeout_ms elapsed) prefer_timer
    else if ready bl c
    then released
    else waiting
