-- ===== src/Upstream/Blocker/Waiters.antt =====
-- The blocker's promises to those who block, unblock and wait, and the race of an early reader.
use bscp_go.Prelude.Options.{◌>>=◌}
use bscp_go.Prelude.{
  ℕ, ◌+◌, ◌≤◌, ◌<◌, ◌≡◌, refl, ◌↔◌, inl, inr, Bool, true, false, Option, none, some, List, [], ◌∷◌,
  arith, Bool-cases, Option-cases,
}
use bscp_go.Upstream.Blocker.{
  Blocker, init_blocker, close, store_state, make_signal, try_block, unblock, receive, wait,
  released, given_up, waiting, ready, wait_with_context, wait_ms,
}

-- Between the calls: while blocked the newest channel is open, and no channel of the future is
-- closed; while not blocked the signal, if there is one, is closed.
pub record IsValid (bl : Blocker) : Type 0 where
  pub fresh : (c : ℕ) → bl.made ≤ c → bl.closed c ≡ false
  pub blocked :
      bl.state ≡ true → (c : ℕ) × (bl.signal ≡ some c) × (c < bl.made) × (bl.closed c ≡ false)

pub init_blocker-IsValid : IsValid init_blocker
unfolding init_blocker
init_blocker-IsValid = record { fresh = λ c h. refl; blocked = λ h. absurd (cc) }

pub try_block-IsValid : (bl : Blocker) → IsValid bl → IsValid (try_block bl).1
unfolding try_block
try_block-IsValid bl v = elim (Bool-cases bl.state) [
  | inl held ↦ let same : (try_block bl).1 ≡ bl = ground arith in rw same v
  | inr free ↦
      let new : (try_block bl).1
          ≡ record bl { state = true; signal = some bl.made; made = bl.made + 1 } =
        ground arith in
      rw new (record {
        fresh = λ c h. v.fresh c (omega arith);
        blocked = λ h. (bl.made, refl, omega arith, v.fresh bl.made (omega arith));
      })
]

pub try_block-held : (bl : Blocker) → bl.state ≡ true → try_block bl ≡ (false, bl)
unfolding try_block
try_block-held bl h = ground arith

pub try_block-free :
    (bl : Blocker) → bl.state ≡ false → ((try_block bl).0 ≡ true) × ((try_block bl).1.state ≡ true)
unfolding try_block
try_block-free bl h = ground arith

-- A well-formed blocker can always be unblocked without a panic, and is then not blocked.
pub unblock-IsValid :
    (bl : Blocker)
    → IsValid bl
    → (bl' : Blocker) × (unblock bl ≡ some bl') × IsValid bl' × (bl'.state ≡ false)
unfolding unblock
unblock-IsValid bl v = elim (Bool-cases bl.state) [
  | inl held ↦
      let (c, here, old, open_) = v.blocked held in
      (
        record bl { state = false; closed = close bl.closed c },
        ground arith,
        record { fresh = λ d h. ground (arith, v.fresh d h); blocked = λ h. absurd (cc) },
        refl,
      )
  | inr free ↦ (bl, ground arith, v, free)
]

-- The calls that reconnections make, in any order.
pub data Call : Type 0 where
  block release : Call

pub call : Call → Blocker → Option Blocker
unfolding try_block unblock
call block bl = some (try_block bl).1
call release bl = unblock bl

unfoldable pub calls : List Call → Blocker → Option Blocker
unfolding call
calls [] bl = some bl
calls (o ∷ os) bl = do mid ← call o bl; calls os mid

call-IsValid :
    (o : Call) (bl : Blocker) → IsValid bl → (bl' : Blocker) × (call o bl ≡ some bl') × IsValid bl'
unfolding call
call-IsValid block bl v = ((try_block bl).1, refl, try_block-IsValid bl v)
call-IsValid release bl v = let (bl', step, v', _) = unblock-IsValid bl v in (bl', step, v')

-- No sequence of calls panics, and each keeps the blocker well formed.
pub calls-IsValid :
    (os : List Call) (bl : Blocker)
    → IsValid bl
    → (bl' : Blocker) × (calls os bl ≡ some bl') × IsValid bl'
unfolding calls
calls-IsValid [] bl v = (bl, refl, v)
calls-IsValid (o ∷ os) bl v =
    let (mid, step, w) = call-IsValid o bl v in
    let (end, rest, u) = calls-IsValid os mid w in (end, ground (arith, rest, step), u)

-- A closed channel stays closed.
ready-call :
    (o : Call) (bl bl' : Blocker) (c : Option ℕ)
    → call o bl ≡ some bl'
    → ready bl c ≡ true
    → ready bl' c ≡ true
unfolding call
ready-call o bl bl' none h r = r
ready-call block bl bl' (some c) h r = ground arith
ready-call release bl bl' (some c) h r = ground arith

ready-calls :
    (os : List Call) (bl bl' : Blocker) (c : Option ℕ)
    → calls os bl ≡ some bl'
    → ready bl c ≡ true
    → ready bl' c ≡ true
unfolding calls
ready-calls [] bl bl' c h r = ground (arith, h, r)
ready-calls (o ∷ os) bl bl' c h r = elim (Option-cases (call o bl)) [
  | inl stuck ↦ absurd (ground arith)
  | inr (mid, step) ↦ ready-calls os mid bl' c (ground arith) (ready-call o bl mid c step r)
]

-- A request that began to wait while the blocker was blocked has its channel closed by the next
-- `Unblock`.
ready-unblock :
    (bl bl' : Blocker)
    → IsValid bl
    → bl.state ≡ true
    → unblock bl ≡ some bl'
    → ready bl' bl.signal ≡ true
unfolding unblock
ready-unblock bl bl' v held h = let (c, here, old, open_) = v.blocked held in ground arith

-- A request whose test found the blocker blocked, and that reads the signal while the blocker is well
-- formed and blocked, so that no `TryBlock` is between its two stores then: it waits; the next `Unblock`
-- releases it, and whatever reconnections block and unblock afterwards, it is released, unless its
-- context is done.
pub broadcast :
    (at_test bl mid bl' : Blocker) (os : List Call) (prefer_done : Bool)
    → at_test.state ≡ true
    → IsValid bl
    → bl.state ≡ true
    → unblock bl ≡ some mid
    → calls os mid ≡ some bl'
    → (wait_with_context bl (wait at_test bl) false prefer_done ≡ waiting)
      × (wait_with_context bl' (wait at_test bl) false prefer_done ≡ released)
unfolding wait wait_with_context
broadcast at_test bl mid bl' os prefer_done met v held release_ rest =
    let closed_now = ready-unblock bl mid v held release_ in
    let closed_later = ready-calls os mid bl' bl.signal rest closed_now in
    let (c, here, old, open_) = v.blocked held in (ground arith, ground arith)

-- `TryBlock` stores the state before it makes the channel. A request whose two reads fall between
-- the two stores of the first `TryBlock` waits on the nil channel: when that reconnection has unblocked,
-- and after whatever calls follow it, the request still waits, unless its context is done.
pub early_reader :
    (os : List Call) (bl' : Blocker) (prefer_done : Bool)
    → calls (release ∷ os) (make_signal (store_state init_blocker)) ≡ some bl'
    → (wait (store_state init_blocker) (make_signal (store_state init_blocker)) ≡ receive (some 0))
      × (ready bl' (some 0) ≡ true)
      × (wait_with_context bl'
            (wait (store_state init_blocker) (store_state init_blocker))
            false
            prefer_done
          ≡ waiting)
unfolding wait wait_with_context init_blocker store_state make_signal calls call unblock
early_reader os bl' prefer_done h =
    (refl, ready-calls os _ bl' (some 0) h (ground arith), ground arith)

-- The timeout of `WaitMS` runs out after as many nanoseconds as the caller gave milliseconds: a
-- request on an open channel, with a timeout of 1 or more, has given up exactly when so many
-- nanoseconds have gone.
pub wait_ms-nanoseconds :
    (bl : Blocker) (c : Option ℕ) (timeout_ms elapsed : ℕ) (prefer_timer : Bool)
    → ready bl c ≡ false
    → 0 < timeout_ms
    → (wait_ms bl (receive c) timeout_ms elapsed prefer_timer ≡ given_up) ↔ (timeout_ms ≤ elapsed)
unfolding wait_ms
wait_ms-nanoseconds bl c timeout_ms elapsed prefer_timer shut positive = ground arith
