-- ===== src/Download/Http/Ranged/Complete.antt =====
-- The parts of `downloadWithRange` together: what holds of the file after every step, and at the end.
use mathlib.Core.Path.{subst}
use bscp_go.Retry.{RetryPolicy}
use bscp_go.Prelude.{
  ℕ, zero, suc, ◌^◌, ◌<◌, ◌≡◌, refl, sym, ◌∙◌, inl, inr, List, [], ◌∷◌, leb, if◌then◌else◌,
  Bool-cases, length,
}
use bscp_go.Download.Body.{FileBytes, Target, to_bytes, to_file}
use bscp_go.Download.Ranges.{part, Range}
use bscp_go.Download.Http.{Ask, Attempt, got, missed, hung, crashed, download_one_ranged_part}
use bscp_go.Download.Http.Ranged.{
  Phase, fetching, fetched, part_failed, part_crashed, Worker, settle, round, step, run,
}
use bscp_go.Download.Http.Ranged.Content.{
  Honest, AllHonest, Placed, Filled, Placed-Filled, Part, Fetched, attempt-Fetched,
}

module _ (policy : RetryPolicy) (content : List ℕ) (fits : length content < 2 ^ 64) where
  abbrev pub OfPhase : FileBytes → ℕ × ℕ → Phase → Type 0
  OfPhase f b fetching = Unit
  OfPhase f b fetched = Filled content f b
  OfPhase f b part_failed = Unit
  OfPhase f b part_crashed = ⊥

  -- Every part that is fetched is in the file.
  abbrev pub AllRight : FileBytes → List (Worker policy) → Type 0
  AllRight f [] = Unit
  AllRight f (w ∷ ws) = Part content w.bounds × OfPhase f w.bounds w.phase × AllRight f ws

  abbrev pub RightAfter : FileBytes → List (Worker policy) × Target → Type 0
  RightAfter f (ws, to_file f') = Placed content f f' × AllRight f' ws
  RightAfter f (ws, to_bytes _) = ⊥

  abbrev RoundRight : FileBytes → ℕ × ℕ → Worker policy × Target → Type 0
  RoundRight f b (w, to_file f') =
      Placed content f f' × (w.bounds ≡ b) × OfPhase f' w.bounds w.phase
  RoundRight f b (w, to_bytes _) = ⊥

  Placed-refl : (f : FileBytes) → Placed content f f
  unfolding Placed
  Placed-refl f = λ i. inl refl

  Placed-trans : (f g h : FileBytes) → Placed content f g → Placed content g h → Placed content f h
  unfolding Placed
  Placed-trans f g h p q = λ i. elim (q i) [
    | inr r ↦ inr r
    | inl r ↦ elim (p i) [ inl t ↦ inl (r ∙ t) | inr t ↦ inr (r ∙ t) ]
  ]

  OfPhase-keep :
      (f f' : FileBytes) (b : ℕ × ℕ) (p : Phase)
      → Placed content f f'
      → OfPhase f b p
      → OfPhase f' b p
  OfPhase-keep f f' b fetching p h = tt
  OfPhase-keep f f' b fetched p h = Placed-Filled content f f' b p h
  OfPhase-keep f f' b part_failed p h = tt
  OfPhase-keep f f' b part_crashed p h = h

  AllRight-keep :
      (f f' : FileBytes) (ws : List (Worker policy))
      → Placed content f f'
      → AllRight f ws
      → AllRight f' ws
  AllRight-keep f f' [] p h = tt
  AllRight-keep f f' (w ∷ ws) p (part, h, hs) =
      (part, OfPhase-keep f f' w.bounds w.phase p h, AllRight-keep f f' ws p hs)

  settle_right :
      (w : Worker policy) (f : FileBytes) (a : Attempt)
      → w.phase ≡ fetching
      → Fetched content f w.bounds a
      → RoundRight f w.bounds (settle policy w (to_file f) a)
  unfolding settle Fetched
  settle_right w f (got (to_file f')) e (p, filled) = (p, refl, filled)
  settle_right w f (got (to_bytes _)) e h = h
  settle_right w f (missed x (to_file f')) e p = (p, refl, rw e tt)
  settle_right w f (missed x (to_bytes _)) e h = h
  settle_right w f hung e h = (Placed-refl f, refl, rw e tt)
  settle_right w f crashed e h = absurd h

  fetching_right :
      (w : Worker policy) (f : FileBytes) (ask : Ask)
      → w.phase ≡ fetching
      → Part content w.bounds
      → ((r : Range) → Honest content r (ask r).reply)
      → RoundRight f w.bounds (
          if leb 5 (policy.retry_count w.retry)
          then (record w { phase = part_failed }, to_file f)
          else settle policy w (to_file f) (download_one_ranged_part w.bounds (to_file f) ask))
  fetching_right w f ask e part h = elim (Bool-cases (leb 5 (policy.retry_count w.retry))) [
    | inl over ↦ rw over (Placed-refl f, refl, tt)
    | inr more ↦ rw more (
        settle_right w f (download_one_ranged_part w.bounds (to_file f) ask) e
          (attempt-Fetched content f (w.bounds.0) (w.bounds.1) ask fits part h))
  ]

  by_phase :
      (w : Worker policy) (f : FileBytes) (ask : Ask) (p : Phase)
      → w.phase ≡ p
      → Part content w.bounds
      → OfPhase f w.bounds p
      → ((r : Range) → Honest content r (ask r).reply)
      → RoundRight f w.bounds (elim p [
        | fetching ↦
            if leb 5 (policy.retry_count w.retry)
            then (record w { phase = part_failed }, to_file f)
            else settle policy w (to_file f) (download_one_ranged_part w.bounds (to_file f) ask)
        | _ ↦ (w, to_file f)
      ])
  by_phase w f ask fetching e part o h = fetching_right w f ask e part h
  by_phase w f ask fetched e part o h = (Placed-refl f, refl, rw e o)
  by_phase w f ask part_failed e part o h = (Placed-refl f, refl, rw e tt)
  by_phase w f ask part_crashed e part o h = absurd o

  round_right :
      (w : Worker policy) (f : FileBytes) (ask : Ask)
      → Part content w.bounds
      → OfPhase f w.bounds w.phase
      → ((r : Range) → Honest content r (ask r).reply)
      → RoundRight f w.bounds (round policy w (to_file f) ask)
  unfolding round
  round_right w f ask part o h = by_phase w f ask w.phase refl part o h

  first_moved :
      (f : FileBytes) (b : ℕ × ℕ) (ws : List (Worker policy)) (r : Worker policy × Target)
      → Part content b
      → AllRight f ws
      → RoundRight f b r
      → RightAfter f (let (w', target') = r in (w' ∷ ws, target'))
  first_moved f b ws (w', to_file f') p_b all (p, same, o) =
      (p, (subst (Part content) (sym same) p_b, o, AllRight-keep f f' ws p all))
  first_moved f b ws (w', to_bytes _) p_b all h = h

  other_moved :
      (f : FileBytes) (w : Worker policy) (r : List (Worker policy) × Target)
      → Part content w.bounds
      → OfPhase f w.bounds w.phase
      → RightAfter f r
      → RightAfter f (let (ws', target') = r in (w ∷ ws', target'))
  other_moved f w (ws', to_file f') p_w o (p, all) =
      (p, (p_w, OfPhase-keep f f' w.bounds w.phase p o, all))
  other_moved f w (ws', to_bytes _) p_w o h = h

  step_right :
      (i : ℕ) (ask : Ask) (ws : List (Worker policy)) (f : FileBytes)
      → ((r : Range) → Honest content r (ask r).reply)
      → AllRight f ws
      → RightAfter f (step policy i ask ws (to_file f))
  unfolding step
  step_right i ask [] f h all = (Placed-refl f, tt)
  step_right zero ask (w ∷ ws) f h (part, o, all) =
      first_moved f w.bounds ws (round policy w (to_file f) ask) part all
        (round_right w f ask part o h)
  step_right (suc i) ask (w ∷ ws) f h (part, o, all) =
      other_moved f w (step policy i ask ws (to_file f)) part o (step_right i ask ws f h all)

  rest_right :
      (f : FileBytes) (r : List (Worker policy) × Target)
      (more : List (Worker policy) → Target → List (Worker policy) × Target)
      → RightAfter f r
      → ((ws : List (Worker policy)) (f' : FileBytes)
          → AllRight f' ws
          → RightAfter f' (more ws (to_file f')))
      → RightAfter f (let (ws', target') = r in more ws' target')
  rest_right f (ws, to_file f') more (p, all) next =
      after f f' (more ws (to_file f')) p (next ws f' all)
    where
      after :
          (g g' : FileBytes) (r : List (Worker policy) × Target)
          → Placed content g g'
          → RightAfter g' r
          → RightAfter g r
      after g g' (ws', to_file h) q (q', all') = (Placed-trans g g' h q q', all')
      after g g' (ws', to_bytes _) q never = never
  rest_right f (ws, to_bytes _) more never next = absurd never

  pub run_right :
      (schedule : List (ℕ × Ask)) (ws : List (Worker policy)) (f : FileBytes)
      → AllHonest content schedule
      → AllRight f ws
      → RightAfter f (run policy schedule ws (to_file f))
  unfolding run
  run_right [] ws f h all = (Placed-refl f, all)
  run_right ((i, ask) ∷ rest) ws f (h, hs) all =
      rest_right f (step policy i ask ws (to_file f)) (run policy rest)
        (step_right i ask ws f h all) (λ ws' f' all'. run_right rest ws' f' hs all')
