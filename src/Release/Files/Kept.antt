-- ===== src/Release/Files/Kept.antt =====
-- `clearOldFiles`: the folders above a file that is kept are kept.
use bscp_go.Prelude.{
  ℕ, ◌≡◌, refl, sym, ap, ◌∙◌, ◌≢◌, inl, inr, true, List, [], ◌∷◌, ◌++◌, arith, ◌==◌, Bool-cases,
  append_nil, append_assoc, bytes_eq, bytes_eq_sound, has_prefix,
}
use bscp_go.Release.Files.{ConfigItemFile, join, keeps_dir, keeps_file}

-- No slash is in the name.
abbrev pub NoSlash : List ℕ → Type 0
NoSlash [] = Unit
NoSlash (b ∷ bs) = (b ≢ 47) × NoSlash bs

abbrev pub Named : List ConfigItemFile → Type 0
Named [] = Unit
Named (f ∷ fs) = NoSlash f.name × Named fs

head_eq {ℓ} : {A : Type ℓ} (x y : A) (xs ys : List A) → x ∷ xs ≡ y ∷ ys → x ≡ y
head_eq x y xs ys e = ap (λ (l : List _). elim l [ [] ↦ x | z ∷ zs ↦ z ]) e

tail_eq {ℓ} : {A : Type ℓ} (x y : A) (xs ys : List A) → x ∷ xs ≡ y ∷ ys → xs ≡ ys
tail_eq x y xs ys e = ap (λ (l : List _). elim l [ [] ↦ xs | z ∷ zs ↦ zs ]) e

slash_inside : (m b r : List ℕ) → NoSlash m → m ≢ b ++ (47 ∷ r)
slash_inside [] [] r n e = absurd (grind arith)
slash_inside [] (x ∷ b) r n e = absurd (grind arith)
slash_inside (y ∷ m) [] r (n, _) e = n (head_eq y 47 m r e)
slash_inside (y ∷ m) (x ∷ b) r (_, n) e = slash_inside m b r n (tail_eq y x m (b ++ (47 ∷ r)) e)

-- If the last slash of the one text is behind a beginning of it that a slash follows, the beginning
-- is one of what is before the last slash.
before_last : (a b m r : List ℕ) → NoSlash m → a ++ (47 ∷ m) ≡ b ++ (47 ∷ r) → has_prefix a b ≡ true
unfolding has_prefix
before_last [] [] m r n e = refl
before_last (x ∷ a) [] m r n e = refl
before_last [] (y ∷ b) m r n e = absurd (slash_inside m b r n (tail_eq 47 y m (b ++ (47 ∷ r)) e))
before_last (x ∷ a) (y ∷ b) m r n e =
    let same : (x == y) ≡ true = ground (arith, head_eq x y (a ++ (47 ∷ m)) (b ++ (47 ∷ r)) e) in
    rw same (before_last a b m r n (tail_eq x y (a ++ (47 ∷ m)) (b ++ (47 ∷ r)) e))

join-append : (ps qs : List (List ℕ)) → join (ps ++ qs) ≡ join ps ++ join qs
unfolding join
join-append [] qs = refl
join-append (p ∷ ps) qs =
    ap (λ (l : List ℕ). 47 ∷ (p ++ l)) (join-append ps qs)
    ∙ ap (λ (l : List ℕ). 47 ∷ l) (sym (append_assoc p (join ps) (join qs)))

last_slash : (ps : List (List ℕ)) (n : List ℕ) → join ps ++ (47 ∷ n) ≡ join (ps ++ (n ∷ []))
unfolding join
last_slash ps n =
    ap (λ (l : List ℕ). join ps ++ (47 ∷ l)) (sym (append_nil n)) ∙ sym (join-append ps (n ∷ []))

-- The folders above a file that is kept are kept.
pub kept_above :
    (fs : List ConfigItemFile) (base : List (List ℕ)) (q : List ℕ) (qs : List (List ℕ))
    → Named fs
    → keeps_file fs (base ++ (q ∷ qs)) ≡ true
    → keeps_dir fs base ≡ true
unfolding keeps_file keeps_dir join
kept_above [] base q qs n h = absurd (grind arith)
kept_above (f ∷ fs) base q qs (n, ns) h =
    elim (Bool-cases (bytes_eq (join (f.path ++ (f.name ∷ []))) (join (base ++ (q ∷ qs))))) [
      | inl same ↦
          let paths : join (f.path ++ (f.name ∷ [])) ≡ join (base ++ (q ∷ qs)) =
            bytes_eq_sound (join (f.path ++ (f.name ∷ []))) (join (base ++ (q ∷ qs))) same in
          let above : has_prefix (join f.path) (join base) ≡ true =
            before_last (join f.path) (join base) f.name (q ++ join qs) n
              (last_slash f.path f.name ∙ (paths ∙ join-append base (q ∷ qs))) in
          rw above refl
      | inr other ↦
          let below : keeps_dir fs base ≡ true = kept_above fs base q qs ns (rw other at h) in
          ground arith
    ]
