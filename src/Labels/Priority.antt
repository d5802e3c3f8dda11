-- ===== src/Labels/Priority.antt =====
-- `MergeLabels`: which group a label's value comes from.
use mathlib.Core.Path.{subst}
use bscp_go.Prelude.{
  ◌≡◌, refl, sym, ap, ◌∙◌, inl, inr, false, Option, none, some, List, [], ◌∷◌, arith, if◌then◌else◌,
  Bool-cases, bytes_eq, bytes_eq_sound, bytes_eq_refl, Text,
}
use bscp_go.Labels.{Map, lookup, put, put_all, merge_from, merge_labels, Lacks, IsMap}

abbrev pub or_else {ℓ} : {V : Type ℓ} → Option V → Option V → Option V
or_else (some v) o = some v
or_else none o = o

module _ {ℓ} {V : Type ℓ} where
  pub or_else-none : (o : Option V) → or_else o none ≡ o
  or_else-none none = refl
  or_else-none (some v) = refl

  or_else_assoc : (a b c : Option V) → or_else (or_else a b) c ≡ or_else a (or_else b c)
  or_else_assoc none b c = refl
  or_else_assoc (some v) b c = refl

  pub lookup-put :
      (j k : Text) (v : V) (m : Map V)
      → lookup j (put k v m) ≡ (if bytes_eq j k then some v else lookup j m)
  unfolding lookup put
  lookup-put j k v [] = refl
  lookup-put j k v ((k', v') ∷ m) = ground (
    arith,
    lookup-put j k v m,
    bytes_eq_sound j k,
    bytes_eq_sound j k',
    bytes_eq_sound k k',
    bytes_eq_refl k,
    bytes_eq_refl j,
  )

  pub Lacks-lookup : (k : Text) (m : Map V) → Lacks k m → lookup k m ≡ none
  unfolding lookup
  Lacks-lookup k [] h = refl
  Lacks-lookup k ((k', v) ∷ m) h = rw h.0 (Lacks-lookup k m h.1)

  pub lookup-put_all :
      (j : Text) (m kvs : Map V)
      → IsMap kvs
      → lookup j (put_all m kvs) ≡ or_else (lookup j kvs) (lookup j m)
  unfolding put_all lookup
  lookup-put_all j m [] h = refl
  lookup-put_all j m ((k, v) ∷ kvs) h = ground (
    arith,
    lookup-put_all j (put k v m) kvs h.1,
    lookup-put j k v m,
    Lacks-lookup k kvs h.0,
    bytes_eq_sound j k,
  )

  -- Every group is a map.
  abbrev pub AreMaps : List (Map V) → Type 0
  AreMaps [] = Unit {0}
  AreMaps (g ∷ gs) = IsMap g × AreMaps gs

  -- The value of the last group that has the key.
  abbrev pub last_value : Text → List (Map V) → Option V
  last_value j [] = none
  last_value j (g ∷ gs) = or_else (last_value j gs) (lookup j g)

  merge_from-lookup :
      (j : Text) (m : Map V) (gs : List (Map V))
      → AreMaps gs
      → lookup j (merge_from m gs) ≡ or_else (last_value j gs) (lookup j m)
  unfolding merge_from
  merge_from-lookup j m [] h = refl
  merge_from-lookup j m (g ∷ gs) h =
      merge_from-lookup j (put_all m g) gs h.1
      ∙ ap (or_else (last_value j gs)) (lookup-put_all j m g h.0)
      ∙ sym (or_else_assoc (last_value j gs) (lookup j g) (lookup j m))

  -- A key of the merged labels has the value of the last group that has the key; a key of no group
  -- has no value.
  pub merge_labels-lookup :
      (j : Text) (groups : List (Map V))
      → AreMaps groups
      → lookup j (merge_labels groups) ≡ last_value j groups
  unfolding merge_labels lookup
  merge_labels-lookup j groups h =
      merge_from-lookup j [] groups h ∙ or_else-none (last_value j groups)

  put-Lacks :
      (j k : Text) (v : V) (m : Map V) → bytes_eq j k ≡ false → Lacks j m → Lacks j (put k v m)
  unfolding put
  put-Lacks j k v [] e h = (e, tt)
  put-Lacks j k v ((k', v') ∷ m) e h = elim (Bool-cases (bytes_eq k k')) [
    | inl same ↦ rw same (e, h.1)
    | inr other ↦ rw other (h.0, put-Lacks j k v m e h.1)
  ]

  pub put-IsMap : (k : Text) (v : V) (m : Map V) → IsMap m → IsMap (put k v m)
  unfolding put
  put-IsMap k v [] h = (tt, tt)
  put-IsMap k v ((k', v') ∷ m) h = elim (Bool-cases (bytes_eq k k')) [
    | inl same ↦ rw same (subst (λ t. Lacks t m) (sym (bytes_eq_sound k k' same)) h.0, h.1)
    | inr other ↦ rw other (
      put-Lacks k' k v m (ground (arith, bytes_eq_sound k' k, bytes_eq_refl k)) h.0,
      put-IsMap k v m h.1,
    )
  ]

  pub put_all-IsMap : (m kvs : Map V) → IsMap m → IsMap (put_all m kvs)
  unfolding put_all
  put_all-IsMap m [] h = h
  put_all-IsMap m ((k, v) ∷ kvs) h = put_all-IsMap (put k v m) kvs (put-IsMap k v m h)

  merge_from-IsMap : (m : Map V) (gs : List (Map V)) → IsMap m → IsMap (merge_from m gs)
  unfolding merge_from
  merge_from-IsMap m [] h = h
  merge_from-IsMap m (g ∷ gs) h = merge_from-IsMap (put_all m g) gs (put_all-IsMap m g h)

  pub merge_labels-IsMap : (groups : List (Map V)) → IsMap (merge_labels groups)
  unfolding merge_labels
  merge_labels-IsMap groups = merge_from-IsMap [] groups tt
