-- ===== src/Labels/Equal.antt =====
-- `reflect.DeepEqual` of two maps: they have the same value at every key.
use bscp_go.Prelude.{
  suc, ◌≤◌, ◌<◌, ◌≡◌, refl, sym, ◌∙◌, ◌↔◌, inl, inr, true, false, ◌&&◌, none, some, [], ◌∷◌, arith,
  if◌then◌else◌, Option-cases, length, bytes_eq, bytes_eq_sound, bytes_eq_refl, Text,
}
use bscp_go.Labels.{Map, lookup, Lacks, IsMap, covers, deep_equal}
use bscp_go.Labels.Priority.{Lacks-lookup}

erase : Text → Map Text → Map Text
erase k [] = []
erase k ((k', v) ∷ m) = let rest = erase k m in if bytes_eq k k' then m else (k', v) ∷ rest

lookup-erase :
    (j k : Text) (m : Map Text) → bytes_eq j k ≡ false → lookup j (erase k m) ≡ lookup j m
unfolding erase lookup
lookup-erase j k [] h = refl
lookup-erase j k ((k', v) ∷ m) h =
    ground (arith, lookup-erase j k m h, bytes_eq_sound k k', bytes_eq_sound j k', bytes_eq_refl k)

length-erase :
    (k v : Text) (m : Map Text) → lookup k m ≡ some v → length m ≡ suc (length (erase k m))
unfolding erase lookup
length-erase k v [] h = cc
length-erase k v ((k', w) ∷ m) h = ground (arith, length-erase k v m)

covers-erase :
    (k : Text) (b a : Map Text) → Lacks k a → covers b a ≡ true → covers (erase k b) a ≡ true
unfolding covers
covers-erase k b [] l h = refl
covers-erase k b ((j, v) ∷ a) l h =
    ground (arith, covers-erase k b a l.1, lookup-erase j k b, bytes_eq_sound j k, bytes_eq_refl k)

-- The first entry of a map that is covered.
covers_first :
    (k v : Text) (b a : Map Text)
    → covers b ((k, v) ∷ a) ≡ true
    → (lookup k b ≡ some v) × (covers b a ≡ true)
unfolding covers
covers_first k v b a h = elim (Option-cases (lookup k b)) [
  | inl e ↦ absurd (cc (rw (e, covers) at h))
  | inr (w, e) ↦
      let both : (bytes_eq v w && covers b a) ≡ true = rw (e, covers) at h in
      (ground (arith, bytes_eq_sound v w), ground arith)
]

length-covers : (b a : Map Text) → IsMap a → covers b a ≡ true → length a ≤ length b
length-covers b [] d h = omega arith
length-covers b ((k, v) ∷ a) d h =
    let (here, rest) = covers_first k v b a h in
    omega (
      arith,
      length-erase k v b here,
      length-covers (erase k b) a d.1 (covers-erase k b a d.0 rest),
    )

-- A key that only the second map has makes it longer.
length-covers_strictly :
    (b a : Map Text) (j w : Text)
    → IsMap a
    → covers b a ≡ true
    → lookup j a ≡ none
    → lookup j b ≡ some w
    → length a < length b
unfolding lookup
length-covers_strictly b [] j w d h n s = omega (arith, length-erase j w b s)
length-covers_strictly b ((k, v) ∷ a) j w d h n s =
    let (here, rest) = covers_first k v b a h in
    let apart : bytes_eq j k ≡ false = ground arith in
    omega (
      arith,
      length-erase k v b here,
      length-covers_strictly (erase k b) a j w d.1 (covers-erase k b a d.0 rest) (ground arith)
          (lookup-erase j k b apart ∙ s),
    )

covers-lookup :
    (b a : Map Text) (j v : Text) → covers b a ≡ true → lookup j a ≡ some v → lookup j b ≡ some v
unfolding lookup
covers-lookup b [] j v h s = cc
covers-lookup b ((k, w) ∷ a) j v h s =
    let (here, rest) = covers_first k w b a h in
    ground (arith, covers-lookup b a j v rest, bytes_eq_sound j k)

-- Two maps agree at every key.
abbrev pub Agree : Map Text → Map Text → Type 0
Agree a b = (j : Text) → lookup j a ≡ lookup j b

pub deep_equal-Agree : (a b : Map Text) → IsMap a → deep_equal a (some b) ≡ true → Agree a b
unfolding deep_equal
deep_equal-Agree a b d h j = elim (Option-cases (lookup j a)) [
  | inr (v, e) ↦ e ∙ sym (covers-lookup b a j v (ground arith) e)
  | inl e ↦ elim (Option-cases (lookup j b)) [
    | inl f ↦ e ∙ sym f
    | inr (w, f) ↦ absurd (ground (arith, length-covers_strictly b a j w d (ground arith) e f))
  ]
]

-- Every entry of the second map is looked up in the first.
AllIn : Map Text → Map Text → Type 0
AllIn b [] = Unit {0}
AllIn b ((k, v) ∷ a) = (lookup k b ≡ some v) × AllIn b a

AllIn-covers : (b a : Map Text) → AllIn b a → covers b a ≡ true
unfolding AllIn covers
AllIn-covers b [] h = refl
AllIn-covers b ((k, v) ∷ a) h = ground (arith, AllIn-covers b a h.1, bytes_eq_refl v)

Agree-AllIn :
    (b a : Map Text)
    → IsMap a
    → ((j v : Text) → lookup j a ≡ some v → lookup j b ≡ some v)
    → AllIn b a
unfolding AllIn lookup
Agree-AllIn b [] d h = tt
Agree-AllIn b ((k, v) ∷ a) d h = (
  h k v (ground (arith, bytes_eq_refl k)),
  Agree-AllIn b a d.1 (λ j w e. h j w (ground (arith, bytes_eq_sound j k, Lacks-lookup k a d.0))),
)

Agree-covers : (a b : Map Text) → IsMap a → Agree a b → covers b a ≡ true
Agree-covers a b d h = AllIn-covers b a (Agree-AllIn b a d (λ j v e. sym (h j) ∙ e))

Agree-deep_equal : (a b : Map Text) → IsMap a → IsMap b → Agree a b → deep_equal a (some b) ≡ true
unfolding deep_equal
Agree-deep_equal a b da db h = ground (
  arith,
  Agree-covers a b da h,
  length-covers b a da (Agree-covers a b da h),
  length-covers a b db (Agree-covers b a db (λ j. sym (h j))),
)

-- Two maps that are not nil are equal exactly when they have the same value, or none, at every key.
pub deep_equal_lem :
    (a b : Map Text) → IsMap a → IsMap b → (deep_equal a (some b) ≡ true) ↔ Agree a b
deep_equal_lem a b da db = (deep_equal-Agree a b da, Agree-deep_equal a b da db)
