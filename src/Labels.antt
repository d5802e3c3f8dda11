-- ===== src/Labels.antt =====
-- internal/util/labels.go: `MergeLabels`, and Go's maps with texts as keys, which the labels are.
pub mod Priority
pub mod Equal
use bscp_go.Prelude.{
  ◌≡◌, Bool, true, false, ◌&&◌, Option, none, some, List, [], ◌∷◌, ◌==◌, if◌then◌else◌, length,
  bytes_eq, Text,
}

-- A map, as the list of its entries.
abbrev pub Map {ℓ} : Type ℓ → Type ℓ
Map V = List (Text × V)

module _ {ℓ} {V : Type ℓ} where
  unfoldable pub lookup : Text → Map V → Option V
  lookup k [] = none
  lookup k ((k', v) ∷ m) = let rest = lookup k m in if bytes_eq k k' then some v else rest

  -- `m[k] = v`
  unfoldable pub put : Text → V → Map V → Map V
  put k v [] = (k, v) ∷ []
  put k v ((k', v') ∷ m) =
      let rest = put k v m in if bytes_eq k k' then (k, v) ∷ m else (k', v') ∷ rest

  -- The inner loop of `MergeLabels`, over the entries of one map.
  unfoldable pub put_all : Map V → Map V → Map V
  unfolding put
  put_all m [] = m
  put_all m ((k, v) ∷ kvs) = put_all (put k v m) kvs

  pub merge_from : Map V → List (Map V) → Map V
  unfolding put_all
  merge_from m [] = m
  merge_from m (g ∷ gs) = merge_from (put_all m g) gs

  -- `MergeLabels`
  unfoldable pub merge_labels : List (Map V) → Map V
  unfolding merge_from
  merge_labels groups = merge_from [] groups

  -- No entry has the key.
  abbrev pub Lacks : Text → Map V → Type 0
  Lacks k [] = Unit {0}
  Lacks k ((k', v) ∷ m) = (bytes_eq k k' ≡ false) × Lacks k m

  -- What a map of Go is: no key has two entries.
  abbrev pub IsMap : Map V → Type 0
  IsMap [] = Unit {0}
  IsMap ((k, v) ∷ m) = Lacks k m × IsMap m

-- Every entry of the second map is in the first.
unfoldable pub covers : Map Text → Map Text → Bool
covers b [] = true
covers b ((k, v) ∷ a) = elim (lookup k b) [ none ↦ false | some w ↦ bytes_eq v w ] && covers b a

-- `reflect.DeepEqual` of a map that is not nil with another.
unfoldable pub deep_equal : Map Text → Option (Map Text) → Bool
unfolding covers
deep_equal a none = false
deep_equal a (some b) = length a == length b && covers b a
