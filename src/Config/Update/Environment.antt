-- ===== src/Config/Update/Environment.antt =====
-- `updateLabelsFromEnv`: which variables are labels, and `setDefaultLabels`.
use mathlib.Core.Path.{subst}
use bscp_go.Prelude.{
  ℕ, ◌≡◌, refl, ◌∙◌, inl, inr, Bool, true, false, not, ◌&&◌, Option, none, some, List, [], ◌∷◌,
  ◌++◌, arith, ◌==◌, if◌then◌else◌, Bool-cases, Option-cases, is_none, length, drop, drop_front,
  bytes_eq, bytes_eq_sound, bytes_eq_refl, Text, codes, is_empty, has_prefix, trim_prefix, split,
}
use bscp_go.Labels.{Map, lookup, put, IsMap}
use bscp_go.Labels.Priority.{or_else, lookup-put, put-IsMap}
use bscp_go.Config.Update.{key_value, env_labels_prefix, add_env_label, env_labels}

has_prefix-split : (s p : Text) → has_prefix s p ≡ true → s ≡ p ++ trim_prefix s p
unfolding has_prefix trim_prefix
has_prefix-split s p h = rw h (split_prefix s p h)
  where
    split_prefix : (s p : Text) → has_prefix s p ≡ true → s ≡ p ++ drop (length p) s
    split_prefix s [] h = refl
    split_prefix [] (x ∷ p) h = cc
    split_prefix (y ∷ s) (x ∷ p) h = ground (arith, split_prefix s p)

has_prefix-append : (p s : Text) → has_prefix (p ++ s) p ≡ true
unfolding has_prefix
has_prefix-append [] s = refl
has_prefix-append (x ∷ p) s = ground (arith, has_prefix-append p s)

trim_prefix-append : (p s : Text) → trim_prefix (p ++ s) p ≡ s
unfolding trim_prefix
trim_prefix-append p s = rw (has_prefix-append p s) (drop_front (length p) p s refl)

-- Whether a variable's name is that of a label: `labels_` and the label's name, which is not empty;
-- the name `labels_file` is of no label.
abbrev pub names_label : Text → Text → Bool
names_label j k =
    bytes_eq k (env_labels_prefix ++ j)
    && not (is_empty j)
    && not (bytes_eq k (codes "labels_file"))

-- The value of the last variable that names the label. It ends at its first `=`.
abbrev pub last_variable : Text → List Text → Option Text
last_variable j [] = none
last_variable j (env ∷ envs) =
    or_else (last_variable j envs) (elim (key_value env) [
      | none ↦ none
      | some (k, v) ↦ if names_label j k then some v else none
    ])

-- The step of the loop, for any prefix and any name that is left out.
lookup-add :
    (p f j k v : Text) (m : Map Text)
    → lookup j (
        if bytes_eq k f
        then m
        else if has_prefix k p && not (is_empty (trim_prefix k p))
        then put (trim_prefix k p) v m
        else m)
      ≡ (if bytes_eq k (p ++ j) && not (is_empty j) && not (bytes_eq k f)
          then some v
          else lookup j m)
lookup-add p f j k v m = ground (
  arith,
  has_prefix-split k p,
  has_prefix-append p j,
  trim_prefix-append p j,
  bytes_eq_sound k (p ++ j),
  bytes_eq_refl k,
  bytes_eq_refl j,
  bytes_eq_sound j (trim_prefix k p),
  lookup-put j (trim_prefix k p) v m,
)

lookup-add_env_label :
    (j k v : Text) (m : Map Text)
    → lookup j (add_env_label k v m) ≡ (if names_label j k then some v else lookup j m)
unfolding add_env_label
lookup-add_env_label j k v m = lookup-add env_labels_prefix (codes "labels_file") j k v m

pub lookup-env_labels :
    (j : Text) (envs : List Text) (m m' : Map Text)
    → env_labels envs m ≡ some m'
    → lookup j m' ≡ or_else (last_variable j envs) (lookup j m)
unfolding env_labels
lookup-env_labels j [] m m' h = ground arith
lookup-env_labels j (env ∷ envs) m m' h = elim (Option-cases (key_value env)) [
  | inl e ↦ absurd (cc (rw (e, env_labels) at h))
  | inr ((k, v), e) ↦
      let next : env_labels envs (add_env_label k v m) ≡ some m' = rw (e, env_labels) at h in
      rw e (
        lookup-env_labels j envs (add_env_label k v m) m' next
        ∙ ground (arith, lookup-add_env_label j k v m))
]

add_env_label-IsMap : (k v : Text) (m : Map Text) → IsMap m → IsMap (add_env_label k v m)
unfolding add_env_label
add_env_label-IsMap k v m h = elim (Bool-cases (bytes_eq k (codes "labels_file"))) [
  | inl file ↦ rw file h
  | inr other ↦
      rw other
        (elim (Bool-cases
          (has_prefix k env_labels_prefix && not (is_empty (trim_prefix k env_labels_prefix)))) [
            | inl label ↦ rw label (put-IsMap (trim_prefix k env_labels_prefix) v m h)
            | inr none_of_it ↦ rw none_of_it h
          ])
]

pub env_labels-IsMap :
    (envs : List Text) (m m' : Map Text) → env_labels envs m ≡ some m' → IsMap m → IsMap m'
unfolding env_labels
env_labels-IsMap [] m m' h k =
    let same : m ≡ m' = ground arith in subst (λ (t : Map Text). IsMap t) same k
env_labels-IsMap (env ∷ envs) m m' h k = elim (Option-cases (key_value env)) [
  | inl e ↦ absurd (cc (rw (e, env_labels) at h))
  | inr ((name, v), e) ↦
      env_labels-IsMap envs (add_env_label name v m) m' (rw (e, env_labels) at h)
        (add_env_label-IsMap name v m k)
]

-- The variables that make the loop panic: those without `=`.
abbrev pub lacks_equals : Text → Bool
lacks_equals [] = true
lacks_equals (c ∷ s) = not (c == b'=') && lacks_equals s

abbrev pub all_have_equals : List Text → Bool
all_have_equals [] = true
all_have_equals (env ∷ envs) = not (lacks_equals env) && all_have_equals envs

split-cons : (sep : ℕ) (s : Text) → (p : Text) × (ps : List Text) × (split sep s ≡ p ∷ ps)
unfolding split
split-cons sep [] = ([], [], refl)
split-cons sep (c ∷ s) =
    let (p, ps, e) = split-cons sep s in
    elim (Bool-cases (c == sep)) [
      | inl here ↦ ([], split sep s, rw here)
      | inr other ↦ (c ∷ p, ps, rw other (rw e))
    ]

one_piece : List Text → Bool
one_piece (k ∷ []) = true
one_piece _ = false

one_piece-cons : (c : ℕ) (p : Text) (ps : List Text) → one_piece ((c ∷ p) ∷ ps) ≡ one_piece (p ∷ ps)
unfolding one_piece
one_piece-cons c p [] = refl
one_piece-cons c p (q ∷ ps) = refl

one_piece-split : (s : Text) → one_piece (split b'=' s) ≡ lacks_equals s
unfolding one_piece split
one_piece-split [] = refl
one_piece-split (c ∷ s) =
    let (p, ps, e) = split-cons b'=' s in
    elim (Bool-cases (c == b'=')) [
      | inl here ↦ rw here (rw e)
      | inr other ↦ rw (other, e) (one_piece-cons c p ps ∙ rw e at (one_piece-split s))
    ]

key_value-none : (env : Text) → is_none (key_value env) ≡ lacks_equals env
unfolding key_value one_piece
key_value-none env = let (p, ps, e) = split-cons b'=' env in ground (arith, one_piece-split env)

-- The loop panics exactly when some variable has no `=`.
pub env_labels-none :
    (envs : List Text) (m : Map Text) → is_none (env_labels envs m) ≡ not (all_have_equals envs)
unfolding env_labels
env_labels-none [] m = refl
env_labels-none (env ∷ envs) m = elim (Option-cases (key_value env)) [
  | inl e ↦ rw (e, env_labels) (ground (arith, key_value-none env))
  | inr ((k, v), e) ↦
      rw (e, env_labels)
        (ground (arith, key_value-none env, env_labels-none envs (add_env_label k v m)))
]
