-- ===== src/Usage/Bounds.antt =====
-- The greatest, least and average sample.
use bscp_go.Prelude.{ℕ, suc, ◌+◌, ◌/◌, ◌^◌, ◌≤◌, ◌<◌, ◌≡◌, List, [], ◌∷◌, arith, length}
use bscp_go.Usage.{Stats, no_stats, set_mem_usage, get_mem_usage, collect}

abbrev pub sum : List ℕ → ℕ
sum [] = 0
sum (u ∷ us) = u + sum us

abbrev pub AllPositive : List ℕ → Type 0
AllPositive [] = Unit {0}
AllPositive (u ∷ us) = (0 < u) × AllPositive us

-- Every sample lies between the two numbers.
abbrev pub Between : ℕ → ℕ → List ℕ → Type 0
Between lo hi [] = Unit {0}
Between lo hi (u ∷ us) = (lo ≤ u) × (u ≤ hi) × Between lo hi us

Between-weaken :
    (lo hi lo' hi' : ℕ) (us : List ℕ) → lo' ≤ lo → hi ≤ hi' → Between lo hi us → Between lo' hi' us
Between-weaken lo hi lo' hi' [] l h b = tt
Between-weaken lo hi lo' hi' (u ∷ us) l h b =
    (omega arith, omega arith, Between-weaken lo hi lo' hi' us l h b.2)

set_bounds :
    (u : ℕ) (s : Stats)
    → 0 < u
    → 0 < s.min
    → ((set_mem_usage u s).min ≤ s.min)
      × (s.max ≤ (set_mem_usage u s).max)
      × ((set_mem_usage u s).min ≤ u)
      × (u ≤ (set_mem_usage u s).max)
      × (0 < (set_mem_usage u s).min)
unfolding set_mem_usage
set_bounds u s p m = (ground arith, ground arith, ground arith, ground arith, ground arith)

-- Later samples only widen the range, when all are above 0 and so is the least so far.
collect-widens :
    (us : List ℕ) (s : Stats)
    → AllPositive us
    → 0 < s.min
    → ((collect us s).min ≤ s.min)
      × (s.max ≤ (collect us s).max)
      × Between (collect us s).min (collect us s).max us
unfolding collect
collect-widens [] s p m = (omega arith, omega arith, tt)
collect-widens (u ∷ us) s p m =
    let (low, high, least, most, above) = set_bounds u s p.0 m in
    let (low', high', rest) = collect-widens us (set_mem_usage u s) p.1 above in
    (omega arith, omega arith, (omega arith, omega arith, rest))

collect-total :
    (us : List ℕ) (s : Stats)
    → s.total + sum us < 2 ^ 64
    → ((collect us s).total ≡ s.total + sum us) × ((collect us s).count ≡ s.count + length us)
unfolding collect set_mem_usage
collect-total [] s h = (omega arith, omega arith)
collect-total (u ∷ us) s h =
    let (t, c) = collect-total us (set_mem_usage u s) (omega arith) in (omega arith, omega arith)

set_bounds-first :
    (u : ℕ)
    → 0 < u
    → (0 < (set_mem_usage u no_stats).min)
      × ((set_mem_usage u no_stats).min ≤ u)
      × (u ≤ (set_mem_usage u no_stats).max)
unfolding set_mem_usage
set_bounds-first u p = (ground arith, ground arith, ground arith)

set_mem_usage-first :
    (u : ℕ)
    → u < 2 ^ 64
    → ((set_mem_usage u no_stats).total ≡ u) × ((set_mem_usage u no_stats).count ≡ 1)
unfolding set_mem_usage
set_mem_usage-first u h = (omega arith, omega arith)

get_mem_usage-avg :
    (s : Stats) (t n : ℕ) → s.total ≡ t → s.count ≡ suc n → (get_mem_usage s).avg ≡ t / suc n
unfolding get_mem_usage
get_mem_usage-avg s t n e c = ground arith

-- The samples of one collection that are all above 0 and whose sum is a uint64 lie between the least and
-- the greatest that are reported, and the average is their sum over their number.
pub get_mem_usage-Between :
    (u : ℕ) (us : List ℕ)
    → AllPositive (u ∷ us)
    → sum (u ∷ us) < 2 ^ 64
    → Between
        (get_mem_usage (collect (u ∷ us) no_stats)).min
        (get_mem_usage (collect (u ∷ us) no_stats)).max
        (u ∷ us)
      × ((get_mem_usage (collect (u ∷ us) no_stats)).avg ≡ sum (u ∷ us) / length (u ∷ us))
unfolding get_mem_usage collect
get_mem_usage-Between u us p small =
    let first : Stats = set_mem_usage u no_stats in
    let above : (0 < first.min) × (first.min ≤ u) × (u ≤ first.max) = set_bounds-first u p.0 in
    let (low, high, rest) = collect-widens us first p.1 above.0 in
    let first_total : (first.total ≡ u) × (first.count ≡ 1) = set_mem_usage-first u (omega arith) in
    let (t, c) = collect-total us first (omega (arith, first_total)) in
    (
      (omega arith, omega arith, rest),
      get_mem_usage-avg (collect (u ∷ us) no_stats) (sum (u ∷ us)) (length us)
          (omega (arith, t, first_total)) (omega (arith, c, first_total)),
    )
