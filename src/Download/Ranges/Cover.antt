-- ===== src/Download/Ranges/Cover.antt =====
-- The parts cover the file once, in order, and each request asks for exactly its part.
use mathlib.Core.Path.{subst}
use bscp_go.Prelude.{
  ℕ, zero, suc, ◌+◌, ◌-◌, ◌*◌, ◌/◌, ◌%◌, ◌^◌, ◌≤◌, ◌<◌, ◌≡◌, refl, ap, inl, inr, List, [], ◌∷◌,
  arith, ltb, if◌then◌else◌, lt-cases, length, take, drop, take_all, length-drop,
}
use bscp_go.Download.Ranges.{total_parts, part, parts_from, parts, range_header, sliced}

-- The parts lie end to end: the first begins at `a`, none is empty, each begins behind the one
-- before, and the last ends just before `b`.
abbrev pub EndToEnd : ℕ → ℕ → List (ℕ × ℕ) → Type 0
EndToEnd a b [] = a ≡ b
EndToEnd a b ((s, e) ∷ ps) = (s ≡ a) × (s ≤ e) × EndToEnd (e + 1) b ps

-- The part is inside the file, and it is a single byte only at the end.
abbrev pub Inside : ℕ → ℕ × ℕ → Type 0
Inside size (s, e) = (s ≤ e) × (e < size) × (s ≡ e → e + 1 ≡ size)

abbrev pub AllInside : ℕ → List (ℕ × ℕ) → Type 0
AllInside size [] = Unit
AllInside size (b ∷ bs) = Inside size b × AllInside size bs

mul_mono : (m n k : ℕ) → m ≤ n → m * k ≤ n * k
mul_mono m n k h = grind arith

le_mul : (k b q : ℕ) → k ≤ b → k * q ≤ q * b
le_mul k b q h =
    let m : k * q ≤ b * q = mul_mono k b q h in
    let same : b * q ≡ q * b = grind arith in omega arith

-- A batch size of 1 or more cuts a file into that many whole batches and a rest; for a size below 2^63
-- the number of parts is an int.
total_parts_bounds :
    (size batch : ℕ)
    → 0 < batch
    → 0 < size
    → size < 2 ^ 63
    → (0 < total_parts size batch)
      × (size ≤ total_parts size batch * batch)
      × (total_parts size batch * batch < size + batch)
      × (total_parts size batch < 2 ^ 63)
unfolding total_parts
total_parts_bounds size batch pb ps fits = ground (arith, facts.0, facts.1, facts.2, int)
  where
    q : ℕ
    q = size / batch

    facts :
        (size ≡ q * batch + size % batch)
        × (size % batch < batch)
        × ((q + 1) * batch ≡ q * batch + batch)
    facts = (grind arith, grind arith, grind arith)

    int : (if ltb 0 (size % batch) then q + 1 else q) < 2 ^ 63
    int =
        let one : 1 * q ≤ q * batch = le_mul 1 batch q pb in
        elim (lt-cases 1 batch) [
          | inl more ↦
              let two : 2 * q ≤ q * batch = le_mul 2 batch q (omega arith) in
              ground (arith, facts.0)
          | inr single ↦ ground (arith, facts.0, facts.1)
        ]

module _ (size batch : ℕ) (pb : 0 < batch) (ps : 0 < size) (fits : size < 2 ^ 63) where
  -- A part that is not the last ends inside the file.
  inner_end : (i : ℕ) → i + 1 < total_parts size batch → i * batch + batch < size
  inner_end i h =
      let (_, _, under, _) = total_parts_bounds size batch pb ps fits in
      let below : (i + 2) * batch ≤ total_parts size batch * batch =
        mul_mono (i + 2) (total_parts size batch) batch (omega arith) in
      let sums : (i + 2) * batch ≡ i * batch + batch + batch = grind arith in omega arith

  last_start : (i : ℕ) → i + 1 ≡ total_parts size batch → i * batch < size
  last_start i h =
      let (_, _, under, _) = total_parts_bounds size batch pb ps fits in
      let same : (i + 1) * batch ≡ total_parts size batch * batch = ap (λ (n : ℕ). n * batch) h in
      let sums : (i + 1) * batch ≡ i * batch + batch = grind arith in omega arith

  part_inner :
      (i : ℕ)
      → i + 1 < total_parts size batch
      → part size batch i ≡ (i * batch, i * batch + batch - 1)
  unfolding part
  part_inner i h = let inside = inner_end i h in ground arith

  part_last : (i : ℕ) → i + 1 ≡ total_parts size batch → part size batch i ≡ (i * batch, size - 1)
  unfolding part
  part_last i h = let inside = last_start i h in ground arith

  parts_from-EndToEnd :
      (i left : ℕ)
      → i + suc left ≡ total_parts size batch
      → EndToEnd (i * batch) size (parts_from size batch i (suc left))
  unfolding parts_from
  parts_from-EndToEnd i zero h =
      let last : i + 1 ≡ total_parts size batch = omega arith in
      let inside = last_start i last in rw (part_last i last) (refl, omega arith, omega arith)
  parts_from-EndToEnd i (suc left) h =
      let inner : i + 1 < total_parts size batch = omega arith in
      let inside = inner_end i inner in
      let next : i * batch + batch - 1 + 1 ≡ (i + 1) * batch = grind arith in
      rw (part_inner i inner)
        (refl, omega arith, rw next (parts_from-EndToEnd (i + 1) left (omega arith)))

  pub parts_all : parts size batch ≡ parts_from size batch 0 (total_parts size batch)
  unfolding parts
  parts_all = let (_, _, _, int) = total_parts_bounds size batch pb ps fits in ground arith

  -- For a file of 1 byte or more whose size is below 2^63, and any batch size but 0, the parts lie end
  -- to end from the first byte to the last: no byte is fetched twice, and none is left out.
  pub parts-EndToEnd : EndToEnd 0 size (parts size batch)
  parts-EndToEnd =
      let (some_, _, _, _) = total_parts_bounds size batch pb ps fits in
      let n : total_parts size batch ≡ suc (total_parts size batch - 1) = omega arith in
      let begin : 0 * batch ≡ 0 = omega arith in
      rw (parts_all, n)
        (subst
          (λ (a : ℕ). EndToEnd a size (parts_from size batch 0 (suc (total_parts size batch - 1))))
          begin (parts_from-EndToEnd 0 (total_parts size batch - 1) (omega arith)))

module _ (size batch : ℕ) (two : 2 ≤ batch) (ps : 0 < size) (fits : size < 2 ^ 63) where
  parts_from-AllInside :
      (i left : ℕ)
      → i + left ≡ total_parts size batch
      → AllInside size (parts_from size batch i left)
  unfolding parts_from
  parts_from-AllInside i zero h = tt
  parts_from-AllInside i (suc zero) h =
      let last : i + 1 ≡ total_parts size batch = omega arith in
      let inside = last_start size batch (omega arith) ps fits i last in
      rw (part_last size batch (omega arith) ps fits i last)
        ((omega arith, omega arith, λ same. omega arith), tt)
  parts_from-AllInside i (suc (suc left)) h =
      let inner : i + 1 < total_parts size batch = omega arith in
      let inside = inner_end size batch (omega arith) ps fits i inner in
      rw (part_inner size batch (omega arith) ps fits i inner) (
        (omega arith, omega arith, λ same. omega arith),
        parts_from-AllInside (i + 1) (suc left) (omega arith),
      )

  pub parts-AllInside : AllInside size (parts size batch)
  parts-AllInside =
      rw (parts_all size batch (omega arith) ps fits)
        (parts_from-AllInside 0 (total_parts size batch) (omega arith))

-- What a server that follows HTTP returns to the header of a part is the content's bytes from `s`
-- to `e`, also where the header leaves the end open: that happens for a part of a single byte, which
-- is then the last byte of the file.
pub sliced-range_header :
    (content : List ℕ) (s e : ℕ)
    → s ≤ e
    → e < length content
    → (s ≡ e → e + 1 ≡ length content)
    → sliced content (range_header s e) ≡ take (e + 1 - s) (drop s content)
unfolding range_header
sliced-range_header content s e h inside single =
    ground (arith, take_all (drop s content) (e + 1 - s), length-drop content s)
