-- ===== src/Download/Http/Ranged/Content.antt =====
-- `downloadWithRange` leaves the file's content behind, in whatever order the parts' attempts come.
use mathlib.Core.Path.{subst}
use bscp_go.Prelude.{
  ℕ, zero, suc, ◌+◌, ◌-◌, ◌^◌, ◌≤◌, ◌<◌, ◌≡◌, refl, sym, ap, ◌∙◌, ◌⊎◌, inl, inr, false, not, ◌&&◌,
  List, [], ◌∷◌, arith, ltb, ◌==◌, Bool-cases, length, get_elem?, take, drop, length-take,
  get_elem?-drop,
}
use bscp_go.Download.Body.{
  Chunk, FileBytes, to_bytes, to_file, WriteResult, finished, failed, pending, panics, write,
}
use bscp_go.Download.Body.Written.{Serves, Touched, Sound, write-Sound}
use bscp_go.Download.Ranges.{u64, Range, whole, range_header, sliced}
use bscp_go.Download.Http.{
  Reply, no_request, no_response, response, Ask, Attempt, got, missed, hung, crashed, do_request,
  written, fetch, download_one_ranged_part,
}

get_elem?-take : (n : ℕ) (xs : List ℕ) (j : ℕ) → j < n → get_elem? (take n xs) j ≡ get_elem? xs j
get_elem?-take zero xs j h = absurd (omega arith)
get_elem?-take (suc n) [] j h = refl
get_elem?-take (suc n) (x ∷ xs) zero h = refl
get_elem?-take (suc n) (x ∷ xs) (suc j) h = get_elem?-take n xs j (omega arith)

module _ (content : List ℕ) where
  -- What a provider that serves ranges answers to a request. With a range: 206 and exactly the bytes of
  -- the range, and not 200. Without: 200 or 206 and the whole content. Or any other status, with any
  -- body, or no answer.
  abbrev pub Honest : Range → Reply → Type 0
  Honest r no_request = Unit
  Honest r no_response = Unit
  Honest r (response code chunks) =
      (code ≡ 206 → Serves (sliced content r) 0 chunks)
      × (code ≡ 200 → (r ≡ whole) × Serves content 0 chunks)

  -- An accepted answer has the bytes that were asked for.
  pub accepted-Serves :
      (r : Range) (code : ℕ) (chunks : List Chunk)
      → Honest r (response code chunks)
      → (not (code == 200) && not (code == 206)) ≡ false
      → Serves (sliced content r) 0 chunks
  accepted-Serves r code chunks (part_, all) good = elim (Bool-cases (code == 206)) [
    | inl e ↦ part_ (ground arith)
    | inr e ↦
        let (none_asked, serves) = all (ground arith) in
        subst (λ (k : Range). Serves (sliced content k) 0 chunks) (sym none_asked) serves
  ]

  abbrev pub AllHonest : List (ℕ × Ask) → Type 0
  AllHonest [] = Unit
  AllHonest ((i, ask) ∷ rest) = ((r : Range) → Honest r (ask r).reply) × AllHonest rest

  -- A file differs from one before only in bytes that are the content's.
  unfoldable pub Placed : FileBytes → FileBytes → Type 0
  Placed f f' = (i : ℕ) → (f' i ≡ f i) ⊎ (f' i ≡ get_elem? content i)

  unfoldable pub Filled : FileBytes → ℕ × ℕ → Type 0
  Filled f (s, e) = (i : ℕ) → s ≤ i → i ≤ e → f i ≡ get_elem? content i

  pub Placed-Filled : (f f' : FileBytes) (b : ℕ × ℕ) → Placed f f' → Filled f b → Filled f' b
  unfolding Filled Placed
  Placed-Filled f f' (s, e) p h = λ i l u. elim (p i) [ inl q ↦ q ∙ h i l u | inr q ↦ q ]

  -- A part of the file, whose request's header asks for its bytes.
  abbrev pub Part : ℕ × ℕ → Type 0
  Part (s, e) =
      (s ≤ e)
      × (e < length content)
      × (sliced content (range_header s e) ≡ take (e + 1 - s) (drop s content))

  unfoldable pub Fetched : FileBytes → ℕ × ℕ → Attempt → Type 0
  Fetched f b (got (to_file f')) = Placed f f' × Filled f' b
  Fetched f b (got (to_bytes _)) = ⊥
  Fetched f b (missed e (to_file f')) = Placed f f'
  Fetched f b (missed e (to_bytes _)) = ⊥
  Fetched f b hung = Unit
  Fetched f b crashed = ⊥

  slice_byte :
      (s e j : ℕ)
      → j < e + 1 - s
      → get_elem? (take (e + 1 - s) (drop s content)) j ≡ get_elem? content (s + j)
  slice_byte s e j h = get_elem?-take (e + 1 - s) (drop s content) j h ∙ get_elem?-drop content s j

  module _ (f : FileBytes) (s e : ℕ) where
    Touched-Placed :
        (f' : FileBytes)
        → ((i : ℕ) → Touched (take (e + 1 - s) (drop s content)) s f f' i)
        → Placed f f'
    unfolding Placed
    Touched-Placed f' t = λ i. elim (t i) [
      | inl same ↦ inl same
      | inr (j, place, inside, byte) ↦ inr (
          byte
          ∙ (slice_byte s e j (omega (arith, length-take (e + 1 - s) (drop s content)))
              ∙ ap (get_elem? content) (sym place)))
    ]

    Sound-Fetched :
        (r : WriteResult)
        → Sound (take (e + 1 - s) (drop s content)) s f (e + 1 - s) 0 r
        → Fetched f (s, e) (written r)
    unfolding Fetched written Filled
    Sound-Fetched (finished (to_file f')) (t, all) = (
      Touched-Placed f' t,
      λ i l u.
          let j : ℕ = i - s in
          let place : s + j ≡ i = omega arith in
          subst (λ (k : ℕ). f' k ≡ get_elem? content k) place
            (all j (omega arith) (omega arith) ∙ slice_byte s e j (omega arith)),
    )
    Sound-Fetched (finished (to_bytes _)) h = h
    Sound-Fetched (failed x (to_file f')) t = Touched-Placed f' t
    Sound-Fetched (failed x (to_bytes _)) h = h
    Sound-Fetched pending h = tt
    Sound-Fetched panics h = h

    fetch-Fetched :
        (r : Reply)
        → Part (s, e)
        → Honest (range_header s e) r
        → Fetched f (s, e) (fetch (e + 1 - s) s (to_file f) (do_request r))
    unfolding fetch do_request Fetched Placed
    fetch-Fetched no_request p h = λ i. inl refl
    fetch-Fetched no_response p h = λ i. inl refl
    fetch-Fetched (response code chunks) (l, u, same) h =
        elim (Bool-cases (not (code == 200) && not (code == 206))) [
          | inl bad ↦ rw bad (λ i. inl refl)
          | inr good ↦ rw good (
              Sound-Fetched (write (to_file f) (e + 1 - s) s 0 chunks) (
                write-Sound (take (e + 1 - s) (drop s content)) s chunks f (e + 1 - s) 0 (
                  subst (λ (xs : List ℕ). Serves xs 0 chunks) same
                    (accepted-Serves (range_header s e) code chunks h good))))
        ]

    pub attempt-Fetched :
        (ask : Ask)
        → length content < 2 ^ 64
        → Part (s, e)
        → ((r : Range) → Honest r (ask r).reply)
        → Fetched f (s, e) (download_one_ranged_part (s, e) (to_file f) ask)
    unfolding download_one_ranged_part Fetched Placed
    attempt-Fetched ask fits (l, u, same) h =
        let order : ltb e s ≡ false = ground arith in
        let size : u64 (e + 2 ^ 64 - s + 1) ≡ e + 1 - s = ground arith in
        elim (Bool-cases (ask (range_header s e)).acquired) [
          | inl free ↦
              rw (order, free, size)
                (fetch-Fetched (ask (range_header s e)).reply (l, u, same) (h (range_header s e)))
          | inr taken ↦ rw (order, taken) (λ i. inl refl)
        ]
