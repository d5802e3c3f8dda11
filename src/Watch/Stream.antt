-- ===== src/Watch/Stream.antt =====
-- client/watch.go: `loopReceiveWatchedEvent`; client/reconnect.go: `NotifyReconnect`;
-- client/heartbeat.go: `heartbeatOnce` and the round of `loopHeartbeat`.
pub mod Signals
mod Tests
use bscp_go.Prelude.{ℕ, Bool, not, Option, none, some, List, [], ◌∷◌, ◌++◌, ◌==◌, if◌then◌else◌}
use bscp_go.Retry.{RetryPolicy}

pub data Signal : Type 0 where
  closed_by_remote stream_corrupted bounce_request heartbeat_failed labels_reset : Signal

-- The type of a message, with the payload of a release.
pub data Kind {ℓ} (A : Type ℓ) : Type ℓ where
  bounce : Kind A
  publish_release : A → Kind A
  unsupported : Kind A

-- What the `select` of the loop finds: the context done, or what `Recv` returned; for a message,
-- whether its version matches, and its type.
pub data Found {ℓ} (A : Type ℓ) : Type ℓ where
  ctx_done : Found A
  recv_eof recv_failed : Found A
  message : Bool → Kind A → Found A

-- The channel of one signal, and the events for each of which an `OnReleaseChange` was started.
pub record Watcher {ℓ} (A : Type ℓ) : Type ℓ where
  pub reconnect_chan : Option Signal
  pub started : List A

pub data Loop : Type 0 where
  goes_on stopped reconnects : Loop

module _ {ℓ} {A : Type ℓ} where
  -- `NotifyReconnect`
  unfoldable pub notify_reconnect : Signal → Watcher A → Watcher A
  notify_reconnect s w = elim w.reconnect_chan [
    | none ↦ record w { reconnect_chan = some s }
    | some old ↦ w
  ]

  -- The `switch` on the type.
  pub handle : Kind A → Watcher A → Loop × Watcher A
  unfolding notify_reconnect
  handle bounce w = (reconnects, notify_reconnect bounce_request w)
  handle (publish_release e) w = (goes_on, record w { started = w.started ++ (e ∷ []) })
  handle unsupported w = (goes_on, w)

  -- A round of the loop. The `break` of another version leaves the `select` only.
  pub receive : Found A → Watcher A → Loop × Watcher A
  unfolding handle notify_reconnect
  receive ctx_done w = (stopped, w)
  receive recv_eof w = (reconnects, notify_reconnect closed_by_remote w)
  receive recv_failed w = (reconnects, notify_reconnect stream_corrupted w)
  receive (message version_match kind) w = if not version_match then (goes_on, w) else handle kind w

  -- `loopReceiveWatchedEvent`; `goes_on` at the end is that it has not ended.
  pub loop_receive_watched_event : List (Found A) → Watcher A → Loop × Watcher A
  unfolding receive
  loop_receive_watched_event [] w = (goes_on, w)
  loop_receive_watched_event (f ∷ fs) w =
      let (l, w') = receive f w in
      let again = loop_receive_watched_event fs w' in
      elim l [ goes_on ↦ again | stopped ↦ (stopped, w') | reconnects ↦ (reconnects, w') ]

-- What a round of `heartbeatOnce` meets: whether the context is done, and the error of the message,
-- `none` if it is accepted.
pub record Beat {ℓ} (E : Type ℓ) : Type ℓ where
  pub done : Bool
  pub send_err : Option E

-- How `heartbeatOnce` ends: without an error, with the last one (nil if there was none), or not yet.
pub data Beaten {ℓ} (E : Type ℓ) : Type ℓ where
  no_error : Beaten E
  last_error : Option E → Beaten E
  beating : Beaten E

abbrev pub max_heartbeat_retry_count : ℕ
max_heartbeat_retry_count = 3

module _ {ℓ} {E : Type ℓ} (policy : RetryPolicy) where
  pub beat : policy.Policy → Option E → List (Beat E) → Beaten E
  beat p last_err [] = beating
  beat p last_err (b ∷ bs) =
      let again = λ (e : E). beat (policy.sleep p) (some e) bs in
      if b.done
      then no_error
      else if policy.retry_count p == max_heartbeat_retry_count
      then last_error last_err
      else elim b.send_err [ none ↦ no_error | some e ↦ again e ]

  -- `heartbeatOnce`
  pub heartbeat_once : List (Beat E) → Beaten E
  unfolding beat
  heartbeat_once bs = beat policy.new_policy none bs

  -- The round of `loopHeartbeat` behind the encoding of the message.
  pub heartbeat_round {κ} : {A : Type κ} → List (Beat E) → Watcher A → Loop × Watcher A
  unfolding heartbeat_once notify_reconnect
  heartbeat_round bs w = elim (heartbeat_once bs) [
    | no_error ↦ (goes_on, w)
    | last_error none ↦ (goes_on, w)
    | last_error (some e) ↦ (reconnects, notify_reconnect heartbeat_failed w)
    | beating ↦ (goes_on, w)
  ]
