-- ===== src/Watch/Subscribers/Changes.antt =====
-- `CheckConfigItemsChanged` after `ResetConfigItems`, and the size of a release.
use bscp_go.Prelude.{
  ℕ, suc, ◌+◌, ◌%◌, ◌^◌, ◌<◌, ◌≡◌, refl, ap, ◌∙◌, false, none, some, List, [], ◌∷◌, arith, length,
  bytes_eq_sound, bytes_eq_refl, Text,
}
use bscp_go.Labels.{Map, lookup, put, put_all, Lacks, IsMap}
use bscp_go.Labels.Priority.{lookup-put, Lacks-lookup, lookup-put_all}
use bscp_go.Watch.Subscribers.{
  ConfigItem, Subscriber, Event, check_items, check_config_items_changed, item_map,
  reset_config_items, total_size, app_meta_of,
}

-- The entries that `ResetConfigItems` stores.
abbrev pub entries : List ConfigItem → Map ℕ
entries [] = []
entries (ci ∷ cis) = (ci.name, ci.commit_id) ∷ entries cis

item_map-entries : (cis : List ConfigItem) (m : Map ℕ) → item_map cis m ≡ put_all m (entries cis)
unfolding item_map put_all
item_map-entries [] m = refl
item_map-entries (ci ∷ cis) m = item_map-entries cis (put ci.name ci.commit_id m)

module _ {ℓ} {V : Type ℓ} where
  -- No key of the second map is in the first.
  abbrev Apart : Map V → Map V → Type ℓ
  Apart m [] = Unit
  Apart m ((k, v) ∷ kvs) = (lookup k m ≡ none) × Apart m kvs

  length-put :
      (k : Text) (v : V) (m : Map V) → lookup k m ≡ none → length (put k v m) ≡ suc (length m)
  unfolding lookup put
  length-put k v [] h = refl
  length-put k v ((k', v') ∷ m) h = ground (arith, length-put k v m)

  Apart-put : (k : Text) (v : V) (m kvs : Map V) → Lacks k kvs → Apart m kvs → Apart (put k v m) kvs
  Apart-put k v m [] l h = tt
  Apart-put k v m ((j, w) ∷ kvs) l h = (
    ground (arith, lookup-put j k v m, bytes_eq_sound j k, bytes_eq_refl k),
    Apart-put k v m kvs l.1 h.1,
  )

  length-put_all :
      (m kvs : Map V) → IsMap kvs → Apart m kvs → length (put_all m kvs) ≡ length m + length kvs
  unfolding put_all
  length-put_all m [] d h = omega arith
  length-put_all m ((k, v) ∷ kvs) d h = omega (
    arith,
    length-put k v m h.0,
    length-put_all (put k v m) kvs d.1 (Apart-put k v m kvs d.0 h.1),
  )

  Apart-nothing : (kvs : Map V) → Apart [] kvs
  unfolding lookup
  Apart-nothing [] = tt
  Apart-nothing ((k, v) ∷ kvs) = (refl, Apart-nothing kvs)

length-entries : (cis : List ConfigItem) → length (entries cis) ≡ length cis
length-entries [] = refl
length-entries (ci ∷ cis) = ap suc (length-entries cis)

-- Every item is in the map with its commit.
abbrev AllFound : Map ℕ → List ConfigItem → Type 0
AllFound m [] = Unit {0}
AllFound m (ci ∷ cis) = (lookup ci.name m ≡ some ci.commit_id) × AllFound m cis

check_items-found :
    (m : Map ℕ) (cis : List ConfigItem) (n : ℕ)
    → AllFound m cis
    → check_items m cis n ≡ some (n + length cis)
unfolding check_items
check_items-found m [] n h = ground arith
check_items-found m (ci ∷ cis) n h = ground (arith, check_items-found m cis (n + 1) h.1)

AllFound-put_all :
    (m : Map ℕ) (cis : List ConfigItem)
    → IsMap (entries cis)
    → AllFound (put_all m (entries cis)) cis
unfolding put_all
AllFound-put_all m [] d = tt
AllFound-put_all m (ci ∷ cis) d = (
  lookup-put_all ci.name (put ci.name ci.commit_id m) (entries cis) d.1
      ∙ ground (
        arith,
        Lacks-lookup ci.name (entries cis) d.0,
        lookup-put ci.name ci.name ci.commit_id m,
        bytes_eq_refl ci.name,
      ),
  AllFound-put_all (put ci.name ci.commit_id m) cis d.1,
)

-- The verdict on a map with as many entries as were found.
verdict :
    (m : Map ℕ) (cis : List ConfigItem) (s : Subscriber) (n : ℕ)
    → check_items m cis 0 ≡ some n
    → length m ≡ n
    → check_config_items_changed cis (record s { current_config_items = m }) ≡ false
unfolding check_config_items_changed
verdict m [] s n h e = refl
verdict m (ci ∷ cis) s n h e = ground arith

-- After `ResetConfigItems` with items of different names, `CheckConfigItemsChanged` finds those items
-- unchanged.
pub check-reset :
    (cis : List ConfigItem) (s : Subscriber)
    → IsMap (entries cis)
    → check_config_items_changed cis (reset_config_items cis s) ≡ false
unfolding check_config_items_changed reset_config_items
check-reset [] s d = refl
check-reset (ci ∷ cis) s d =
    let all = ci ∷ cis in
    let count : length (put_all [] (entries all)) ≡ length all = omega (
      arith,
      length-put_all [] (entries all) d (Apart-nothing (entries all)),
      length-entries all,
    ) in
    let checked : check_items (put_all [] (entries all)) all 0 ≡ some (length all) =
      ground (arith, check_items-found _ all 0 (AllFound-put_all [] all d)) in
    verdict (item_map all []) all s (length all) (rw (item_map-entries all []) checked)
      (rw (item_map-entries all []) count)

abbrev pub sum_sizes : List ConfigItem → ℕ
sum_sizes [] = 0
sum_sizes (ci ∷ cis) = ci.byte_size + sum_sizes cis

total_size-sum :
    (cis : List ConfigItem) (t : ℕ) → t < 2 ^ 64 → total_size cis t ≡ (t + sum_sizes cis) % 2 ^ 64
unfolding total_size
total_size-sum [] t h = omega arith
total_size-sum (ci ∷ cis) t h =
    omega (arith, total_size-sum cis ((t + ci.byte_size) % 2 ^ 64) (omega arith))

-- The total size that is reported is the sum of the sizes of the config items modulo 2^64: the sum
-- itself while that is below 2^64.
pub app_meta_of-total :
    (e : Event) (s : Subscriber) → (app_meta_of e s).total_file_size ≡ sum_sizes e.ci_metas % 2 ^ 64
unfolding app_meta_of
app_meta_of-total e s = omega (arith, total_size-sum e.ci_metas 0 (omega arith))
