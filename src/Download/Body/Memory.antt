-- ===== src/Download/Body/Memory.antt =====
-- `write` to memory, of a whole content.
use mathlib.Core.Path.{subst}
use bscp_go.Prelude.{
  ℕ, zero, suc, ◌+◌, ◌-◌, ◌≤◌, ◌<◌, ◌≡◌, refl, ap, ◌∙◌, inl, inr, Option, none, some, List, [], ◌∷◌,
  arith, ltb, ◌==◌, if◌then◌else◌, Bool-cases, lt-cases, length, get_elem?,
}
use bscp_go.Download.Body.{
  ReadErr, nil_err, eof, read_failed, Chunk, to_bytes, to_file, body_failed, wrong_size,
  WriteResult, finished, failed, pending, panics, store, write,
}
use bscp_go.Download.Body.Written.{Serves}

-- What storing within the slice gives: the bytes from `at_` on, and the others as before.
abbrev Stores : List ℕ → ℕ → List ℕ → List ℕ → Type 0
Stores bytes at_ bs bytes' =
    (length bytes' ≡ length bytes)
    × ((j : ℕ) → j < at_ → get_elem? bytes' j ≡ get_elem? bytes j)
    × ((j : ℕ) → j < length bs → get_elem? bytes' (at_ + j) ≡ get_elem? bs j)

store-Stores :
    (bytes : List ℕ) (at_ : ℕ) (bs : List ℕ)
    → at_ + length bs ≤ length bytes
    → (bytes' : List ℕ) × (store bytes at_ bs ≡ some bytes') × Stores bytes at_ bs bytes'
unfolding store
store-Stores bytes at_ [] h = (bytes, refl, (refl, λ j l. refl, λ j l. absurd (omega arith)))
store-Stores [] at_ (b ∷ bs) h = absurd (omega arith)
store-Stores (x ∷ bytes) zero (b ∷ bs) h =
    let (rest, e, (len, before, new)) = store-Stores bytes zero bs (omega arith) in
    (
      b ∷ rest,
      rw e refl,
      (omega arith, λ j l. absurd (omega arith), λ j l. first_new b rest bs new j l),
    )
  where
    first_new :
        (b' : ℕ) (rest bs' : List ℕ)
        → ((j : ℕ) → j < length bs' → get_elem? rest (0 + j) ≡ get_elem? bs' j)
        → (j : ℕ) → j < length (b' ∷ bs')
        → get_elem? (b' ∷ rest) (0 + j) ≡ get_elem? (b' ∷ bs') j
    first_new b' rest bs' new zero l = refl
    first_new b' rest bs' new (suc j) l =
        let place : 0 + suc j ≡ suc (0 + j) = omega arith in rw place (new j (omega arith))
store-Stores (x ∷ bytes) (suc at_) (b ∷ bs) h =
    let (rest, e, (len, before, new)) = store-Stores bytes at_ (b ∷ bs) (omega arith) in
    (
      x ∷ rest,
      rw e refl,
      (
        omega arith,
        λ j l. first_kept x rest bytes at_ before j l,
        λ j l. let place : suc at_ + j ≡ suc (at_ + j) = omega arith in rw place (new j l),
      ),
    )
  where
    first_kept :
        (x' : ℕ) (rest old : List ℕ) (n : ℕ)
        → ((j : ℕ) → j < n → get_elem? rest j ≡ get_elem? old j)
        → (j : ℕ) → j < suc n
        → get_elem? (x' ∷ rest) j ≡ get_elem? (x' ∷ old) j
    first_kept x' rest old n before zero l = refl
    first_kept x' rest old n before (suc j) l = before j (omega arith)

some_inj : (x y : ℕ) → some x ≡ some y → x ≡ y
some_inj x y e = ap (λ (o : Option ℕ). elim o [ none ↦ x | some z ↦ z ]) e

same_elements :
    (xs ys : List ℕ)
    → length xs ≡ length ys
    → ((j : ℕ) → j < length ys → get_elem? xs j ≡ get_elem? ys j)
    → xs ≡ ys
same_elements [] [] l h = refl
same_elements [] (y ∷ ys) l h = absurd (omega arith)
same_elements (x ∷ xs) [] l h = absurd (omega arith)
same_elements (x ∷ xs) (y ∷ ys) l h =
    ap (λ (z : ℕ). z ∷ xs) (some_inj x y (h 0 (omega arith)))
    ∙ ap (λ (zs : List ℕ). y ∷ zs)
        (same_elements xs ys (omega arith) (λ j k. h (suc j) (omega arith)))

module _ (content : List ℕ) where
  -- The slice has the content's length, and its first bytes.
  abbrev Begins : ℕ → List ℕ → Type 0
  Begins total bytes =
      (length bytes ≡ length content)
      × ((j : ℕ) → j < total → get_elem? bytes j ≡ get_elem? content j)

  -- No panic and no file; and the content where there is no error.
  abbrev pub InMemory : WriteResult → Type 0
  InMemory (finished (to_bytes bytes)) = bytes ≡ content
  InMemory (finished (to_file f)) = ⊥
  InMemory (failed e t) = Unit
  InMemory pending = Unit
  InMemory panics = ⊥

  Begins-store :
      (total : ℕ) (bytes bs bytes' : List ℕ)
      → Begins total bytes
      → ((j : ℕ) → j < length bs → get_elem? bs j ≡ get_elem? content (total + j))
      → Stores bytes total bs bytes'
      → Begins (total + length bs) bytes'
  Begins-store total bytes bs bytes' (len, same) served (len', before, new) = (
    len' ∙ len,
    λ j l. elim (lt-cases j total) [
      | inl old ↦ before j old ∙ same j old
      | inr later ↦
          let k : ℕ = j - total in
          let place : total + k ≡ j = omega arith in
          subst (λ (i : ℕ). get_elem? bytes' i ≡ get_elem? content i) place
            (new k (omega arith) ∙ served k (omega arith))
    ],
  )

  round_end :
      (e : ReadErr) (r : WriteResult) (bytes : List ℕ) (total : ℕ)
      → Begins total bytes
      → InMemory r
      → InMemory (elim e [
        | nil_err ↦ r
        | read_failed ↦ failed body_failed (to_bytes bytes)
        | eof ↦
            if total == length content
            then finished (to_bytes bytes)
            else failed wrong_size (to_bytes bytes)
      ])
  round_end nil_err r bytes total b h = h
  round_end read_failed r bytes total b h = tt
  round_end eof r bytes total (len, same) h = elim (Bool-cases (total == length content)) [
    | inl full ↦ rw full (same_elements bytes content len (λ j l. same j (ground arith)))
    | inr short ↦ rw short tt
  ]

  write_bytes-InMemory :
      (cs : List Chunk) (bytes : List ℕ) (start total : ℕ)
      → Serves content total cs
      → Begins total bytes
      → InMemory (write (to_bytes bytes) (length content) start total cs)
  unfolding write
  write_bytes-InMemory [] bytes start total s b = tt
  write_bytes-InMemory (c ∷ cs) bytes start total (same, fits, more) b = elim (Bool-cases c.done) [
    | inl over ↦ rw over tt
    | inr on ↦ elim (Bool-cases (ltb 0 (length c.picked))) [
      | inr none_read ↦
          let b' : Begins (total + length c.picked) bytes = (b.0, λ j l. b.1 j (ground arith)) in
          rw (on, none_read)
            (round_end c.err
              (write (to_bytes bytes) (length content) start (total + length c.picked) cs) bytes
              (total + length c.picked) b'
              (write_bytes-InMemory cs bytes start (total + length c.picked) more b'))
      | inl read ↦
          let (bytes', e, stores) = store-Stores bytes total c.picked (omega (arith, b.0)) in
          let b' : Begins (total + length c.picked) bytes' =
            Begins-store total bytes c.picked bytes' b same stores in
          rw (on, read, e)
            (round_end c.err
              (write (to_bytes bytes') (length content) start (total + length c.picked) cs) bytes'
              (total + length c.picked) b'
              (write_bytes-InMemory cs bytes' start (total + length c.picked) more b'))
    ]
  ]

  -- The body serves a content from its beginning and never beyond its end, and `write` stores it in
  -- memory, in a slice of the content's length. Then it does not panic, and it returns no error only
  -- with the content in the slice.
  pub write-InMemory :
      (cs : List Chunk) (bytes : List ℕ) (start : ℕ)
      → Serves content 0 cs
      → length bytes ≡ length content
      → InMemory (write (to_bytes bytes) (length content) start 0 cs)
  write-InMemory cs bytes start s l =
      write_bytes-InMemory cs bytes start 0 s (l, λ j k. absurd (omega arith))
