-- ===== src/Watch/Stream/Tests.antt =====
-- The theorems on the stream at concrete runs.
use bscp_go.Prelude.{ℕ, ◌+◌, ◌≡◌, refl, true, false, none, some, List, [], ◌∷◌}
use bscp_go.Retry.{RetryPolicy}
use bscp_go.Watch.Stream.{
  heartbeat_failed, bounce, publish_release, unsupported, Found, message, Watcher, reconnects,
  notify_reconnect, loop_receive_watched_event, Beat, beat, heartbeat_once, heartbeat_round,
}
use bscp_go.Watch.Stream.Signals.{Left, loop-Left}

abbrev quiet : Watcher ℕ
quiet = record { reconnect_chan = none; started = [] }

abbrev mixed : List (Found ℕ)
mixed =
    message true (publish_release 4)
    ∷ message false bounce
    ∷ message true unsupported
    ∷ message true (publish_release 5)
    ∷ message true bounce
    ∷ message true (publish_release 6)
    ∷ []

loop-Left_example : Left quiet (4 ∷ 5 ∷ []) (loop_receive_watched_event mixed quiet)
loop-Left_example = loop-Left mixed quiet

abbrev counter : RetryPolicy
counter = record { Policy = ℕ; new_policy = 0; retry_count = λ n. n; sleep = λ n. n + 1 }

abbrev lost : ℕ → Beat ℕ
lost n = record { done = false; send_err = some n }

-- Three failed heartbeats ask for a reconnection.
reconnects_after :
    heartbeat_round counter (lost 1 ∷ lost 2 ∷ lost 3 ∷ lost 4 ∷ []) quiet
    ≡ (reconnects, record { reconnect_chan = some heartbeat_failed; started = [] })
unfolding heartbeat_round heartbeat_once beat notify_reconnect
reconnects_after = refl
