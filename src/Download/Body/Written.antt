-- ===== src/Download/Body/Written.antt =====
-- `write` to a file: only bytes of the content are written, each at its place, and a write that
-- finishes has written all of them.
use bscp_go.Prelude.{
  ℕ, zero, suc, ◌+◌, ◌-◌, ◌≤◌, ◌<◌, ◌≡◌, refl, ap, ◌∙◌, ◌⊎◌, inl, inr, List, [], ◌∷◌, arith, ltb,
  ◌==◌, if◌then◌else◌, Bool-cases, lt-cases, length, get_elem?, take, length-take,
}
use bscp_go.Download.Body.{
  ReadErr, nil_err, eof, read_failed, Chunk, FileBytes, to_bytes, to_file, body_failed, wrong_size,
  WriteResult, finished, failed, pending, panics, write_at, write,
}

write_at_outside :
    (f : FileBytes) (at_ : ℕ) (bs : List ℕ) (i : ℕ)
    → (i < at_) ⊎ (at_ + length bs ≤ i)
    → write_at f at_ bs i ≡ f i
unfolding write_at
write_at_outside f at_ [] i h = refl
write_at_outside f at_ (b ∷ bs) i h = ground (arith, write_at_outside f (at_ + 1) bs i)

write_at_inside :
    (f : FileBytes) (at_ : ℕ) (bs : List ℕ) (i : ℕ)
    → at_ ≤ i
    → i < at_ + length bs
    → write_at f at_ bs i ≡ get_elem? bs (i - at_)
unfolding write_at
write_at_inside f at_ [] i h k = absurd (omega arith)
write_at_inside f at_ (b ∷ bs) i h k = elim (lt-cases at_ i) [
  | inl later ↦
      let next : i - at_ ≡ suc (i - (at_ + 1)) = omega arith in
      rw next (ground (arith, write_at_inside f (at_ + 1) bs i (omega arith) (omega arith)))
  | inr here ↦ let first : i - at_ ≡ 0 = omega arith in rw first (ground arith)
]

module _ (content : List ℕ) where
  -- The chunks give the content's bytes from `total` on, and never more than it has.
  abbrev pub Serves : ℕ → List Chunk → Type 0
  Serves total [] = Unit
  Serves total (c ∷ cs) =
      ((j : ℕ) → j < length c.picked → get_elem? c.picked j ≡ get_elem? content (total + j))
      × (total + length c.picked ≤ length content)
      × Serves (total + length c.picked) cs

  module _ (start : ℕ) where
    -- The file's byte at `i` is as before, or it is the content's byte that belongs there.
    abbrev pub Touched : FileBytes → FileBytes → ℕ → Type 0
    Touched f f' i =
        (f' i ≡ f i)
        ⊎ ((j : ℕ) × (i ≡ start + j) × (j < length content) × (f' i ≡ get_elem? content j))

    abbrev pub Sound : FileBytes → ℕ → ℕ → WriteResult → Type 0
    Sound f expect total (finished (to_file f')) =
        ((i : ℕ) → Touched f f' i)
        × ((j : ℕ) → total ≤ j → j < expect → f' (start + j) ≡ get_elem? content j)
    Sound f expect total (finished (to_bytes bytes)) = ⊥
    Sound f expect total (failed e (to_file f')) = (i : ℕ) → Touched f f' i
    Sound f expect total (failed e (to_bytes bytes)) = ⊥
    Sound f expect total pending = Unit
    Sound f expect total panics = ⊥

    kept :
        (g h : FileBytes) (j : ℕ)
        → Touched g h (start + j)
        → g (start + j) ≡ get_elem? content j
        → h (start + j) ≡ get_elem? content j
    kept g h j (inl p) q = p ∙ q
    kept g h j (inr (j', e, l, p)) q =
        let same : j' ≡ j = omega arith in p ∙ ap (get_elem? content) same

    Touched-trans : (f g h : FileBytes) (i : ℕ) → Touched f g i → Touched g h i → Touched f h i
    Touched-trans f g h i (inl p) (inl q) = inl (q ∙ p)
    Touched-trans f g h i (inr (j, e, l, p)) (inl q) = inr (j, e, l, q ∙ p)
    Touched-trans f g h i _ (inr r) = inr r

    Touched-write_at :
        (f : FileBytes) (total : ℕ) (bs : List ℕ)
        → ((j : ℕ) → j < length bs → get_elem? bs j ≡ get_elem? content (total + j))
        → total + length bs ≤ length content
        → (i : ℕ) → Touched f (write_at f (start + total) bs) i
    Touched-write_at f total bs same fits i = elim (lt-cases i (start + total)) [
      | inl before ↦ inl (write_at_outside f (start + total) bs i (inl before))
      | inr from ↦ elim (lt-cases i (start + total + length bs)) [
        | inr behind ↦ inl (write_at_outside f (start + total) bs i (inr behind))
        | inl inside ↦
            let j : ℕ = i - (start + total) in
            let place : total + j ≡ i - start = omega arith in
            inr (
              i - start,
              omega arith,
              omega arith,
              write_at_inside f (start + total) bs i from inside
                  ∙ (same j (omega arith) ∙ ap (get_elem? content) place),
            )
      ]
    ]

    take_same :
        (n : ℕ) (bs : List ℕ) (j : ℕ)
        → j < length (take n bs)
        → get_elem? (take n bs) j ≡ get_elem? bs j
    take_same zero bs j h = absurd (omega arith)
    take_same (suc n) [] j h = absurd (omega arith)
    take_same (suc n) (b ∷ bs) zero h = refl
    take_same (suc n) (b ∷ bs) (suc j) h = take_same n bs j (omega arith)

    Sound-trans :
        (f g : FileBytes) (expect total more : ℕ) (r : WriteResult)
        → ((i : ℕ) → Touched f g i)
        → ((j : ℕ) → total ≤ j → j < total + more → g (start + j) ≡ get_elem? content j)
        → Sound g expect (total + more) r
        → Sound f expect total r
    Sound-trans f g expect total more (finished (to_file h)) t new (touched, all) = (
      λ i. Touched-trans f g h i (t i) (touched i),
      λ j from to. elim (lt-cases j (total + more)) [
        | inr later ↦ all j later to
        | inl early ↦ kept g h j (touched (start + j)) (new j from early)
      ],
    )
    Sound-trans f g expect total more (finished (to_bytes bytes)) t new s = s
    Sound-trans f g expect total more (failed e (to_file h)) t new s =
        λ i. Touched-trans f g h i (t i) (s i)
    Sound-trans f g expect total more (failed e (to_bytes bytes)) t new s = s
    Sound-trans f g expect total more pending t new s = tt
    Sound-trans f g expect total more panics t new s = s

    take_lt : (n : ℕ) (bs : List ℕ) (j : ℕ) → j < length (take n bs) → j < length bs
    take_lt n bs j h = omega (arith, length-take n bs)

    stored_same :
        (f : FileBytes) (total : ℕ) (bs : List ℕ)
        → ((j : ℕ) → j < length bs → get_elem? bs j ≡ get_elem? content (total + j))
        → (j : ℕ) → total ≤ j
        → j < total + length bs
        → write_at f (start + total) bs (start + j) ≡ get_elem? content j
    stored_same f total bs same j from to =
        let k : ℕ = j - total in
        let place : start + j - (start + total) ≡ k = omega arith in
        let back : total + k ≡ j = omega arith in
        write_at_inside f (start + total) bs (start + j) (omega arith) (omega arith)
        ∙ (ap (get_elem? bs) place ∙ (same k (omega arith) ∙ ap (get_elem? content) back))

    unchanged : (f : FileBytes) (i : ℕ) → Touched f f i
    unchanged f i = inl refl

    -- A round in which nothing was read ends the loop, or leaves it as it was.
    empty-Sound :
        (c : Chunk) (r : WriteResult) (e : ReadErr) (f : FileBytes) (expect total : ℕ)
        → length c.picked ≡ 0
        → Sound f expect (total + length c.picked) r
        → Sound f expect total (elim e [
          | nil_err ↦ r
          | read_failed ↦ failed body_failed (to_file f)
          | eof ↦
              if total + length c.picked == expect
              then finished (to_file f)
              else failed wrong_size (to_file f)
        ])
    empty-Sound c r nil_err f expect total none_read s =
        Sound-trans f f expect total (length c.picked) r (unchanged f)
          (λ j from to. absurd (omega arith)) s
    empty-Sound c r read_failed f expect total none_read s = unchanged f
    empty-Sound c r eof f expect total none_read s =
        elim (Bool-cases (total + length c.picked == expect)) [
          | inl full ↦ rw full (unchanged f, λ j from to. absurd (ground arith))
          | inr short ↦ rw short (unchanged f)
        ]

    -- The body serves a content, from the byte `total` on and never beyond its end, and `write` stores it
    -- in a file. Whatever reads, writes and the context do, no byte of the file changes but to the
    -- content's byte that belongs there; and a `write` that returns no error has stored each of the
    -- content's bytes from `total` to the expected size.
    pub write-Sound :
        (cs : List Chunk) (f : FileBytes) (expect total : ℕ)
        → Serves total cs
        → Sound f expect total (write (to_file f) expect start total cs)
    unfolding write
    write-Sound [] f expect total s = tt
    write-Sound (c ∷ cs) f expect total (same, fits, more) = elim (Bool-cases c.done) [
      | inl over ↦ rw over (unchanged f)
      | inr on ↦ elim (Bool-cases (ltb 0 (length c.picked))) [
        | inr none_read ↦
            rw (on, none_read)
              (empty-Sound c (write (to_file f) expect start (total + length c.picked) cs) c.err f
                expect total (ground arith)
                (write-Sound cs f expect (total + length c.picked) more))
        | inl read ↦ elim (Bool-cases c.write_ok) [
          | inl good ↦
              rw (on, read, good)
                (Sound-trans f (write_at f (start + total) c.picked) expect total (length c.picked)
                  (write (to_file (write_at f (start + total) c.picked)) expect start
                    (total + length c.picked) cs)
                  (Touched-write_at f total c.picked same fits) (stored_same f total c.picked same)
                  (write-Sound cs (write_at f (start + total) c.picked) expect
                    (total + length c.picked) more))
          | inr bad ↦
              rw (on, read, bad)
                (Touched-write_at f total (take c.partial c.picked)
                  (λ j h.
                    take_same c.partial c.picked j h ∙ same j (take_lt c.partial c.picked j h))
                  (omega (arith, length-take c.partial c.picked)))
        ]
      ]
    ]
