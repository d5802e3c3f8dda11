-- ===== src/Download/Http/Ranged/Whole.antt =====
-- `downloadWithRange` as a whole: the parts stay the ones it cut, and together they are the file.
use mathlib.Core.Path.{subst}
use bscp_go.Retry.{RetryPolicy}
use bscp_go.Prelude.{
  ℕ, zero, suc, ◌+◌, ◌*◌, ◌^◌, ◌≤◌, ◌<◌, ◌≡◌, refl, sym, ap, ◌∙◌, inl, inr, false, List, [], ◌∷◌,
  arith, ◌==◌, lt-cases, length, get_elem?,
}
use bscp_go.Download.Body.{FileBytes, Target, to_bytes, to_file}
use bscp_go.Download.Ranges.{u64, parts}
use bscp_go.Download.Ranges.Cover.{
  EndToEnd, AllInside, parts-EndToEnd, parts-AllInside, sliced-range_header,
}
use bscp_go.Download.Http.{Ask, Attempt, got, missed, hung, crashed}
use bscp_go.Download.Http.Retries.{IsFile}
use bscp_go.Download.Http.Ranged.{
  fetched, Ended, complete, Worker, workers, settle, round, step, run, wait_all,
  download_with_range,
}
use bscp_go.Download.Http.Ranged.Content.{AllHonest, Filled}
use bscp_go.Download.Http.Ranged.Complete.{OfPhase, AllRight, RightAfter, run_right}

module _ (policy : RetryPolicy) where
  bounds_of : List (Worker policy) → List (ℕ × ℕ)
  bounds_of [] = []
  bounds_of (w ∷ ws) = w.bounds ∷ bounds_of ws

  bounds_of-workers : (bs : List (ℕ × ℕ)) → bounds_of (workers policy bs) ≡ bs
  unfolding bounds_of workers
  bounds_of-workers [] = refl
  bounds_of-workers (b ∷ bs) = ap (λ (cs : List (ℕ × ℕ)). b ∷ cs) (bounds_of-workers bs)

  settle-bounds :
      (w : Worker policy) (target : Target) (a : Attempt)
      → ((settle policy w target a).0).bounds ≡ w.bounds
  unfolding settle
  settle-bounds w target (got t) = refl
  settle-bounds w target (missed e t) = refl
  settle-bounds w target hung = refl
  settle-bounds w target crashed = refl

  round-bounds :
      (w : Worker policy) (target : Target) (ask : Ask)
      → ((round policy w target ask).0).bounds ≡ w.bounds
  unfolding round
  round-bounds w target ask = ground (arith, settle-bounds w target)

  step-bounds :
      (i : ℕ) (ask : Ask) (ws : List (Worker policy)) (target : Target)
      → bounds_of ((step policy i ask ws target).0) ≡ bounds_of ws
  unfolding step bounds_of
  step-bounds i ask [] target = refl
  step-bounds zero ask (w ∷ ws) target =
      ap (λ (b : ℕ × ℕ). b ∷ bounds_of ws) (round-bounds w target ask)
  step-bounds (suc i) ask (w ∷ ws) target =
      ap (λ (cs : List (ℕ × ℕ)). w.bounds ∷ cs) (step-bounds i ask ws target)

  run-bounds :
      (schedule : List (ℕ × Ask)) (ws : List (Worker policy)) (target : Target)
      → bounds_of ((run policy schedule ws target).0) ≡ bounds_of ws
  unfolding run
  run-bounds [] ws target = refl
  run-bounds ((i, ask) ∷ rest) ws target =
      run-bounds rest ((step policy i ask ws target).0) ((step policy i ask ws target).1)
      ∙ step-bounds i ask ws target

  complete_fetched :
      (w : Worker policy) (ws : List (Worker policy))
      → wait_all policy (w ∷ ws) ≡ complete
      → (w.phase ≡ fetched) × (wait_all policy ws ≡ complete)
  unfolding wait_all
  complete_fetched w ws h = ground arith

-- The bytes of all parts are the bytes between the ends.
parts_fill :
    (content : List ℕ) (policy : RetryPolicy) (fits : length content < 2 ^ 64) (f : FileBytes)
    (ws : List (Worker policy)) (a b i : ℕ)
    → AllRight policy content fits f ws
    → wait_all policy ws ≡ complete
    → EndToEnd a b (bounds_of policy ws)
    → a ≤ i
    → i < b
    → f i ≡ get_elem? content i
unfolding bounds_of Filled
parts_fill content policy fits f [] a b i all done laid l u = absurd (omega arith)
parts_fill content policy fits f (w ∷ ws) a b i (p, o, all) done (begin, order, laid) l u =
    let (is_fetched, rest) = complete_fetched policy w ws done in
    elim (lt-cases (w.bounds.1) i) [
      | inl later ↦
          parts_fill content policy fits f ws (w.bounds.1 + 1) b i all rest laid (omega arith) u
      | inr here ↦
          subst (OfPhase policy content fits f w.bounds) is_fetched o i (omega arith) (omega arith)
    ]

all_parts :
    (content : List ℕ) (policy : RetryPolicy) (fits : length content < 2 ^ 64) (f : FileBytes)
    (bs : List (ℕ × ℕ))
    → AllInside (length content) bs
    → AllRight policy content fits f (workers policy bs)
unfolding workers
all_parts content policy fits f [] h = tt
all_parts content policy fits f ((s, e) ∷ bs) ((l, u, single), h) =
    ((l, u, sliced-range_header content s e l u single), tt, all_parts content policy fits f bs h)

-- The batch size does not wrap and is not 0, so that there is no panic.
unwrapped :
    (policy : RetryPolicy) (size balance : ℕ) (target : Target) (schedule : List (ℕ × Ask))
    → 0 < balance
    → balance < 2 ^ 63
    → let r = run policy schedule (workers policy (parts size (2 * balance))) target in
      ◌≡◌ {A = Ended × Target}
        (download_with_range policy size balance target schedule)
        (wait_all policy (r.0), r.1)
unfolding download_with_range
unwrapped policy size balance target schedule pb bounded =
    let batch : u64 (2 * balance) ≡ 2 * balance = omega arith in
    let some_ : (2 * balance == 0) ≡ false = ground arith in rw (batch, some_) refl

-- A file that is 1 byte or more, and whose size is below 2^63, is fetched in parts of twice the
-- balance size, which is not 0 and below 2^63. The provider serves ranges: to a request for a part
-- it answers 206 with exactly the bytes of its header, never 200 with the whole file, or it answers
-- with a status other than these two, or not at all. Then in whatever order the attempts come, and
-- however the writes go: a download that is complete leaves every byte of the content at its place.
pub download_with_range-complete :
    (policy : RetryPolicy) (content : List ℕ) (balance : ℕ) (f f' : FileBytes)
    (schedule : List (ℕ × Ask))
    → 0 < balance
    → balance < 2 ^ 63
    → 0 < length content
    → length content < 2 ^ 63
    → AllHonest content schedule
    → download_with_range policy (length content) balance (to_file f) schedule
      ≡ (complete, to_file f')
    → (i : ℕ) → i < length content
    → f' i ≡ get_elem? content i
download_with_range-complete policy content balance f f' schedule pb bounded ps small honest done i
      h =
    let cut : List (ℕ × ℕ) = parts (length content) (2 * balance) in
    let fits : length content < 2 ^ 64 = omega arith in
    let r : List (Worker policy) × Target = run policy schedule (workers policy cut) (to_file f) in
    let ends : ◌≡◌ {A = Ended × Target} (wait_all policy (r.0), r.1) (complete, to_file f') =
      sym (unwrapped policy (length content) balance (to_file f) schedule pb bounded) ∙ done in
    let right : RightAfter policy content fits f (r.0, r.1) =
      run_right policy content fits schedule (workers policy cut) f honest (
        all_parts content policy fits f cut
          (parts-AllInside (length content) (2 * balance) (omega arith) ps small)) in
    let laid : EndToEnd 0 (length content) (bounds_of policy (r.0)) =
      subst (EndToEnd 0 (length content))
        (sym (
          run-bounds policy schedule (workers policy cut) (to_file f)
          ∙ bounds_of-workers policy cut))
        (parts-EndToEnd (length content) (2 * balance) (omega arith) ps small) in
    let (_, all) =
      subst (λ (t : Target). RightAfter policy content fits f (r.0, t))
        (ap (λ (p : Ended × Target). p.1) ends) right in
    parts_fill content policy fits f' (r.0) 0 (length content) i all
      (ap (λ (p : Ended × Target). p.0) ends) laid (omega arith) h

RightAfter-IsFile :
    (policy : RetryPolicy) (content : List ℕ) (fits : length content < 2 ^ 64) (f : FileBytes)
    (r : List (Worker policy) × Target)
    → RightAfter policy content fits f r
    → IsFile (r.1)
RightAfter-IsFile policy content fits f (ws, to_file f') h = tt
RightAfter-IsFile policy content fits f (ws, to_bytes _) h = h

pub download_with_range-IsFile :
    (policy : RetryPolicy) (content : List ℕ) (balance : ℕ) (f : FileBytes)
    (schedule : List (ℕ × Ask))
    → 0 < balance
    → balance < 2 ^ 63
    → 0 < length content
    → length content < 2 ^ 63
    → AllHonest content schedule
    → IsFile ((download_with_range policy (length content) balance (to_file f) schedule).1)
download_with_range-IsFile policy content balance f schedule pb bounded ps small honest =
    let cut : List (ℕ × ℕ) = parts (length content) (2 * balance) in
    let fits : length content < 2 ^ 64 = omega arith in
    rw (unwrapped policy (length content) balance (to_file f) schedule pb bounded) (
      RightAfter-IsFile policy content fits f (run policy schedule (workers policy cut) (to_file f))
        (run_right policy content fits schedule (workers policy cut) f honest (
          all_parts content policy fits f cut
            (parts-AllInside (length content) (2 * balance) (omega arith) ps small))))
