-- ===== src/Upstream/Balancer.antt =====
-- internal/upstream/balancer.go: the round-robin choice of an endpoint.
pub mod Rounds
use bscp_go.Prelude.Options.{◌>>=◌}
use bscp_go.Prelude.{
  ℕ, ◌+◌, ◌-◌, String, Option, none, some, List, [], ◌∷◌, ◌==◌, if◌then◌else◌, length, get_elem?,
}

-- The mutex is held for the whole of `PickOne`, so that a call is one step.
pub record Balancer : Type 0 where
  pub index : ℕ
  pub max : ℕ
  pub endpoints : List String

-- `draw` is what `rand.Intn(len(endpoints))` returns.
pub new_balancer : List String → ℕ → Option Balancer
new_balancer [] draw = none
new_balancer (e ∷ es) draw =
    some (record { index = draw; max = length (e ∷ es) - 1; endpoints = e ∷ es })

-- `none` is an index out of range, a panic.
unfoldable pub pick_one : Balancer → Option (String × Balancer)
pick_one r =
    if r.index == r.max
    then (do e ← get_elem? r.endpoints r.max; some (e, record r { index = 0 }))
    else do
      let index = r.index + 1
      e ← get_elem? r.endpoints (index - 1)
      some (e, record r { index = index })
