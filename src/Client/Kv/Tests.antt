-- ===== src/Client/Kv/Tests.antt =====
-- The theorems on `Get` at concrete inputs, with a cache that is a function.
use bscp_go.Client.Kv.Cached.{Right, get-Right}
use bscp_go.Prelude.{
  ℕ, ◌≡◌, refl, sym, ap, ◌∙◌, ◌⊎◌, inl, inr, true, Option, none, some, List, [], ◌∷◌, ◌++◌, arith,
  if◌then◌else◌, Bool-cases, length, bytes_eq, bytes_eq_sound,
}
use bscp_go.Client.Kv.{
  MetaReply, kv_metas, kv_value, Entry, found, entry_not_found, MemCache, kv_cache_key, find_md5,
  get,
}

abbrev table_set : (List ℕ → Entry) → List ℕ → List ℕ → Option (List ℕ → Entry)
table_set c k v = some (λ k'. if bytes_eq k' k then found v else c k')

abbrev table : MemCache
table = record { Cache = List ℕ → Entry; get = λ c k. c k; set = table_set }

found-inj : (v w : List ℕ) → found v ≡ found w → w ≡ v
found-inj v w e = grind arith

table-set_get :
    (c c' : List ℕ → Entry) (k v k' w : List ℕ)
    → table_set c k v ≡ some c'
    → c' k' ≡ found w
    → ((k' ≡ k) × (w ≡ v)) ⊎ (c k' ≡ found w)
table-set_get c c' k v k' w e f =
    let there : c' ≡ (λ (l : List ℕ). if bytes_eq l k then found v else c l) =
      sym (ap (λ (o : Option (List ℕ → Entry)). elim o [ none ↦ c' | some g ↦ g ]) e) in
    let entry : (if bytes_eq k' k then found v else c k') ≡ found w =
      sym (ap (λ (g : List ℕ → Entry). g k') there) ∙ f in
    elim (Bool-cases (bytes_eq k' k)) [
      | inl same ↦ inl (bytes_eq_sound k' k same, found-inj v w (rw same at entry))
      | inr other ↦ inr (rw other at entry)
    ]

abbrev zeros : List ℕ
zeros =
    0 ∷ 0 ∷ 0 ∷ 0 ∷ 0 ∷ 0 ∷ 0 ∷ 0 ∷ 0 ∷ 0 ∷ 0 ∷ 0 ∷ 0 ∷ 0 ∷ 0 ∷ 0 ∷ 0 ∷ 0 ∷ 0 ∷ 0 ∷ 0 ∷ 0 ∷ 0 ∷ 0
    ∷ 0 ∷ 0 ∷ 0 ∷ 0 ∷ 0 ∷ 0 ∷ 0 ∷ []

abbrev digest_of : List ℕ → List ℕ
digest_of v = length v ∷ zeros

digest_of-length : (v : List ℕ) → length (digest_of v) ≡ 32
digest_of-length v = refl

-- The key "k" of the app "a" of the biz "2", whose value is "v", and a cache without entries.
abbrev key_k : List ℕ
key_k = 107 ∷ []

abbrev value_v : List ℕ
value_v = 118 ∷ []

abbrev metas_k : MetaReply
metas_k = kv_metas (record { key = key_k; md5 = digest_of value_v } ∷ [])

abbrev nothing : List ℕ → Entry
nothing k = entry_not_found

nothing-IsGood : (k w : List ℕ) → nothing k ≡ found w → (v : List ℕ) × (w ≡ digest_of v ++ v)
nothing-IsGood k w h = absurd (grind arith)

found_md5 :
    find_md5 key_k (record { key = key_k; md5 = digest_of value_v } ∷ []) ≡ digest_of value_v
unfolding find_md5
found_md5 = refl

get-Right_example :
    Right table
      (record { set_get = table-set_get })
      digest_of
      digest_of-length
      value_v
      key_k
      true
      (kv_cache_key (50 ∷ []) (97 ∷ []) key_k)
      nothing
      (kv_value value_v)
      (get table true (50 ∷ []) (97 ∷ []) key_k metas_k (kv_value value_v) nothing)
get-Right_example =
    get-Right table (record { set_get = table-set_get }) digest_of digest_of-length value_v key_k
      true (50 ∷ []) (97 ∷ []) metas_k (kv_value value_v) nothing (inr found_md5) refl
      nothing-IsGood
