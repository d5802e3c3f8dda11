-- ===== src/Upstream/Tests.antt =====
-- Runs of the connection's parts, and its theorems at concrete data.
use bscp_go.Upstream.Balancer.{Balancer, pick_one}
use bscp_go.Upstream.Balancer.Rounds
use bscp_go.Upstream.Balancer.Rounds.{picks, picks-round}
use bscp_go.Upstream.Blocker.{
  Blocker, close, try_block, unblock, wait, released, waiting, wait_with_context,
}
use bscp_go.Upstream.Blocker.Waiters
use bscp_go.Upstream.Blocker.Waiters.{block, calls, broadcast}
use bscp_go.Upstream.Client.{Grpc, UpstreamClient, reconnect_loop}
use bscp_go.Upstream.Client.Reconnect
use bscp_go.Upstream.Client.Reconnect.{reconnect_loop_ends}
use bscp_go.Prelude.{
  ℕ, ◌+◌, String, ◌≡◌, refl, true, false, none, some, [], ◌∷◌, arith, if◌then◌else◌, str_eq,
}

abbrev three : Balancer
three = record { index = 1; max = 2; endpoints = "a" ∷ "b" ∷ "c" ∷ [] }

three-IsValid : Rounds.IsValid three
three-IsValid = omega arith

wraps : picks 4 three ≡ some ("b" ∷ "c" ∷ "a" ∷ "b" ∷ [], record three { index = 2 })
unfolding picks pick_one
wraps = refl

picks-round_example : picks 3 three ≡ some ("b" ∷ "c" ∷ "a" ∷ [], three)
picks-round_example = picks-round three three-IsValid

abbrev blocked : Blocker
blocked = record { state = true; signal = some 0; made = 1; closed = λ c. false }

blocked-IsValid : Waiters.IsValid blocked
blocked-IsValid = record { fresh = λ c h. refl; blocked = λ h. (0, refl, omega arith, refl) }

abbrev freed : Blocker
freed = record { state = false; signal = some 0; made = 1; closed = close (λ c. false) 0 }

frees : unblock blocked ≡ some freed
unfolding unblock
frees = refl

broadcast_example :
    (wait_with_context blocked (wait blocked blocked) false true ≡ waiting)
    × (wait_with_context (try_block freed).1 (wait blocked blocked) false true ≡ released)
unfolding calls
broadcast_example =
    broadcast blocked blocked freed (try_block freed).1 (block ∷ []) true refl blocked-IsValid refl
      frees refl

-- Of three endpoints only "a" answers. The world counts the dials.
abbrev only_a : Grpc
only_a = record {
  World = ℕ;
  Conn = String;
  dial_context = λ w e t. (if str_eq e "a" then some e else none, w + 1);
  close_conn = λ w c. (true, w);
}

abbrev stale : UpstreamClient only_a
stale = record {
  timeout_ms = 5000;
  lb = three;
  wait = freed;
  conn = some "b";
  client = some "b";
  cancel_ctx = true;
  world = 0;
}

freed-IsValid : Waiters.IsValid freed
freed-IsValid = record { fresh = λ c h. ground arith; blocked = λ h. absurd (cc) }

stale-IsValid : Reconnect.IsValid only_a stale
stale-IsValid = record { balanced = three-IsValid; held = freed-IsValid }

a-IsUp : Reconnect.IsUp only_a "a"
a-IsUp = record { accepts = λ w t. ("a", refl) }

reconnect_loop_ends_example :
    (next : UpstreamClient only_a) × (conn : String) × (reconnect_loop only_a 3 stale ≡ some next)
    × (next.conn ≡ some conn)
    × (next.client ≡ some conn)
    × (next.wait.state ≡ false)
    × Reconnect.IsValid only_a next
reconnect_loop_ends_example =
    reconnect_loop_ends only_a 3 stale 0 "a" stale-IsValid refl refl (omega arith) a-IsUp
      (omega arith)
