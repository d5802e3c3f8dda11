-- ===== src/Upstream/Balancer/Rounds.antt =====
-- The round-robin promise: a pick never leaves the list, and a round serves each endpoint once.
use bscp_go.Prelude.Options.{◌>>=◌}
use bscp_go.Prelude.{
  ℕ, zero, suc, ◌+◌, ◌-◌, ◌≤◌, ◌<◌, String, ◌≡◌, refl, ◌∙◌, inl, inr, Option, some, List, [], ◌∷◌,
  ◌++◌, arith, ◌==◌, if◌then◌else◌, Bool-cases, Option-cases, length, get_elem?, take, drop,
  get_elem?-lt, take_all, length-drop, drop-cons,
}
use bscp_go.Upstream.Balancer.{Balancer, new_balancer, pick_one}

pub record IsValid (r : Balancer) : Type 0 where
  pub within : r.index ≤ r.max
  pub sized : length r.endpoints ≡ r.max + 1

-- The endpoints that `k` picks in a row return.
unfoldable pub picks : ℕ → Balancer → Option (List String × Balancer)
picks zero r = some ([], r)
picks (suc k) r = do (e, s) ← pick_one r; (es, t) ← picks k s; some (e ∷ es, t)

-- With at least one endpoint and a draw below their number, the balancer is well formed.
pub new_balancer-IsValid :
    (endpoints : List String) (draw : ℕ)
    → draw < length endpoints
    → (r : Balancer) × (new_balancer endpoints draw ≡ some r) × IsValid r
unfolding new_balancer
new_balancer-IsValid [] draw h = elim h [ ]
new_balancer-IsValid (e ∷ es) draw h =
    (record { index = draw; max = length (e ∷ es) - 1; endpoints = e ∷ es }, refl, omega arith)

-- A pick of a well-formed balancer returns the endpoint at the index, and moves the index to the
-- next one, back to the first after the last.
pub pick_one_lem :
    (r : Balancer)
    → IsValid r
    → (e : String) × (get_elem? r.endpoints r.index ≡ some e)
      × (pick_one r ≡ some (e, record r { index = if r.index == r.max then 0 else r.index + 1 }))
unfolding pick_one
pick_one_lem r v =
    let (e, found) = get_elem?-lt r.endpoints r.index (omega arith) in
    let here : r.index + 1 - 1 ≡ r.index = omega arith in (e, found, rw here (ground arith))

-- The index after `k` picks from `i` that do not pass the end of the list.
abbrev after : ℕ → ℕ → ℕ → ℕ
after m i k = if i + k == m + 1 then 0 else i + k

module _ (r : Balancer) (v : IsValid r) where
  -- After the last endpoint no pick is left in the round.
  picks-last :
      (k : ℕ)
      → r.index ≡ r.max
      → r.index + suc k ≤ r.max + 1
      → picks (suc k) r
        ≡ some (
          take (suc k) (drop r.index r.endpoints),
          record r { index = after r.max r.index (suc k) },
        )
  unfolding picks
  picks-last (suc k) last h = absurd (omega arith)
  picks-last zero last h =
      let (e, found, step) = pick_one_lem r v in
      rw (step, drop-cons r.endpoints r.index e found) (ground arith)

picks-within :
    (k : ℕ) (r : Balancer)
    → IsValid r
    → r.index + k ≤ r.max + 1
    → picks k r
      ≡ some (take k (drop r.index r.endpoints), record r { index = after r.max r.index k })
unfolding picks
picks-within zero r v h = ground arith
picks-within (suc k) r v h = elim (Bool-cases (r.index == r.max)) [
  | inl last ↦ unfold picks in picks-last r v k (ground arith) h
  | inr more ↦
      let (e, found, step) = pick_one_lem r v in
      rw (step, more, drop-cons r.endpoints r.index e found)
        (ground (arith, picks-within k (record r { index = r.index + 1 }) (ground arith)))
]

picks-add :
    (j k : ℕ) (r s t : Balancer) (xs ys : List String)
    → picks j r ≡ some (xs, s)
    → picks k s ≡ some (ys, t)
    → picks (j + k) r ≡ some (xs ++ ys, t)
unfolding picks
picks-add zero k r s t xs ys p q = let same : 0 + k ≡ k = omega arith in rw same (ground arith)
picks-add (suc j) k r s t xs ys p q = elim (Option-cases (pick_one r)) [
  | inl stuck ↦ absurd (ground arith)
  | inr ((e, r'), step) ↦ elim (Option-cases (picks j r')) [
    | inl stuck ↦ absurd (ground arith)
    | inr ((es, s'), rest) ↦
        let sums : suc j + k ≡ suc (j + k) = omega arith in
        rw sums (ground (arith, picks-add j k r' s' t es ys rest (ground arith)))
  ]
]

-- From a well-formed balancer, as many picks as there are endpoints return the list rotated to the
-- index, and bring the index back: in each round every endpoint is served once, in order.
pub picks-round :
    (r : Balancer)
    → IsValid r
    → picks (length r.endpoints) r ≡ some (drop r.index r.endpoints ++ take r.index r.endpoints, r)
picks-round r v =
    let n = length r.endpoints in
    let first = picks-within (n - r.index) r v (omega arith) in
    let second = picks-within r.index (record r { index = 0 }) (omega arith) (omega arith) in
    let whole : n ≡ (n - r.index) + r.index = omega arith in
    rw whole (
      picks-add (n - r.index) r.index r (record r { index = 0 }) r (drop r.index r.endpoints)
        (take r.index r.endpoints)
        (first
          ∙ ground (
            arith,
            take_all (drop r.index r.endpoints) (n - r.index),
            length-drop r.endpoints r.index,
          ))
        (second ∙ ground arith))
