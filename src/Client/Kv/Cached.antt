-- ===== src/Client/Kv/Cached.antt =====
-- What `Get` returns, and what it leaves in the cache.
use mathlib.Core.Path.{subst}
use bscp_go.Prelude.{
  ℕ, ◌≡◌, refl, sym, ap, ◌∙◌, ◌≢◌, ◌⊎◌, inl, inr, Bool, true, false, some, List, [], ◌++◌, arith,
  ltb, ◌==◌, if◌then◌else◌, Bool-cases, Option-cases, length, take, drop, take_front, drop_front,
  length-append, bytes_eq, bytes_eq_sound,
}
use bscp_go.Client.Kv.{
  MetaReply, kv_metas, meta_failed, Code, unavailable, deadline_exceeded, internal, other_code,
  ValueReply, kv_value, value_failed, Entry, found, entry_not_found, cache_failed, MemCache,
  kv_cache_key, find_md5, FromCache, hit, miss, short, compare_md5, Got, value, error, panics,
  get_kv_value_from_cache, keep, degrade, ask_server, get,
}

-- A later read of the cache finds what was set last under the key, or what was there before.
pub record Keeps (mem : MemCache) : Type 0 where
  pub set_get :
      (c c' : mem.Cache) (k v k' w : List ℕ)
      → mem.set c k v ≡ some c'
      → mem.get c' k' ≡ found w
      → ((k' ≡ k) × (w ≡ v)) ⊎ (mem.get c k' ≡ found w)

module _ (mem : MemCache) (keeps : Keeps mem) (digest : List ℕ → List ℕ)
    (digest_length : (v : List ℕ) → length (digest v) ≡ 32) where
  -- Every entry is a value behind its digest.
  abbrev pub IsGood : mem.Cache → Type 0
  IsGood c = (k w : List ℕ) → mem.get c k ≡ found w → (v : List ℕ) × (w ≡ digest v ++ v)

  set-IsGood :
      (c c' : mem.Cache) (k v : List ℕ)
      → IsGood c
      → mem.set c k (digest v ++ v) ≡ some c'
      → IsGood c'
  set-IsGood c c' k v good e = λ k' w f. elim (keeps.set_get c c' k (digest v ++ v) k' w e f) [
    | inl (_, same) ↦ (v, same)
    | inr before ↦ good k' w before
  ]

  module _ (current key : List ℕ) where
    -- The metas and the value are the server's of one version: the md5, if there is one, is the
    -- digest of the value.
    abbrev pub MetasOf : MetaReply → Type 0
    MetasOf meta_failed = Unit
    MetasOf (kv_metas ks) = (find_md5 key ks ≡ []) ⊎ (find_md5 key ks ≡ digest current)

    abbrev pub ReplyOf : ValueReply → Type 0
    ReplyOf (kv_value v) = v ≡ current
    ReplyOf (value_failed code) = Unit

    module _ (enabled : Bool) (cache_key : List ℕ) (c : mem.Cache) where
      -- A value is the server's, or what the cache has while the server is not there. `Get` panics
      -- where the server is not there and the cache is off.
      abbrev pub Right : ValueReply → Got mem.Cache → Type 0
      Right reply (value v c') =
          IsGood c'
          × ((digest v ≡ digest current)
              ⊎ ((code : Code) × (reply ≡ value_failed code)
                  × (code ≢ other_code)
                  × (mem.get c cache_key ≡ found (digest v ++ v))))
      Right reply (error code c') = (reply ≡ value_failed code) × (c' ≡ c)
      Right reply panics =
          (enabled ≡ false) × ((code : Code) × (reply ≡ value_failed code) × (code ≢ other_code))

      -- The md5 that `Get` goes on with.
      abbrev Md5 : List ℕ → Type 0
      Md5 md5 = (md5 ≡ []) ⊎ (md5 ≡ digest current)

      abbrev Hit : FromCache → Type 0
      Hit (hit v) = digest v ≡ digest current
      Hit (miss md5) = Md5 md5
      Hit short = ⊥

      compare-Hit :
          (e : Entry)
          → ((w : List ℕ) → e ≡ found w → (v : List ℕ) × (w ≡ digest v ++ v))
          → Hit (compare_md5 (digest current) e)
      unfolding compare_md5
      compare-Hit entry_not_found h = inr refl
      compare-Hit cache_failed h = inr refl
      compare-Hit (found w) h =
          let (v, same) = h w refl in
          let long : ltb (length w) 32 ≡ false =
            ground (arith, ap (length {A = ℕ}) same, length-append (digest v) v, digest_length v) in
          elim (Bool-cases (bytes_eq (take 32 w) (digest current))) [
            | inr other ↦ rw (long, other) (inr refl)
            | inl fresh ↦
                rw (long, fresh)
                  (let back : drop 32 w ≡ v =
                      ap (drop 32) same ∙ drop_front 32 (digest v) v (digest_length v) in
                    let front : take 32 w ≡ digest v =
                      ap (take 32) same ∙ take_front 32 (digest v) v (digest_length v) in
                    ap digest back
                    ∙ (sym front ∙ bytes_eq_sound (take 32 w) (digest current) fresh))
          ]

      from_cache :
          (metas : MetaReply)
          → MetasOf metas
          → IsGood c
          → Hit (get_kv_value_from_cache mem cache_key key metas c)
      unfolding get_kv_value_from_cache
      from_cache meta_failed h good = inl refl
      from_cache (kv_metas ks) (inl none_) good = rw none_ (inl refl)
      from_cache (kv_metas ks) (inr some_) good =
          let full : (length (digest current) == 0) ≡ false =
            ground (arith, digest_length current) in
          rw (some_, full) (compare-Hit (mem.get c cache_key) (good cache_key))

      keep-Right :
          (md5 : List ℕ)
          → Md5 md5
          → IsGood c
          → Right (kv_value current) (keep mem enabled cache_key md5 current c)
      unfolding keep
      keep-Right md5 (inl none_) good = rw none_ (elim (Bool-cases enabled) [
        | inl on ↦ rw on (good, inl refl)
        | inr off ↦ rw off (good, inl refl)
      ])
      keep-Right md5 (inr m) good =
          let full : (length (digest current) == 0) ≡ false =
            ground (arith, digest_length current) in
          rw m (elim (Bool-cases enabled) [
            | inr off ↦ rw off (good, inl refl)
            | inl on ↦
                rw (on, full)
                  (elim (Option-cases (mem.set c cache_key (digest current ++ current))) [
                    | inl lost ↦ rw lost (good, inl refl)
                    | inr (c', set_) ↦
                        rw set_ (set-IsGood c c' cache_key current good set_, inl refl)
                  ])
          ])

      degrade_entry :
          (code : Code) (e : Entry)
          → mem.get c cache_key ≡ e
          → code ≢ other_code
          → IsGood c
          → Right (value_failed code) (elim e [
            | entry_not_found ↦ error code c
            | cache_failed ↦ error code c
            | found v ↦ if ltb (length v) 32 then panics else value (drop 32 v) c
          ])
      degrade_entry code entry_not_found g named good = (refl, refl)
      degrade_entry code cache_failed g named good = (refl, refl)
      degrade_entry code (found w) g named good =
          let (v, same) = good cache_key w g in
          let long : ltb (length w) 32 ≡ false =
            ground (arith, ap (length {A = ℕ}) same, length-append (digest v) v, digest_length v) in
          let back : v ≡ drop 32 w =
            sym (ap (drop 32) same ∙ drop_front 32 (digest v) v (digest_length v)) in
          rw long (
            good,
            inr (code, refl, named, g ∙ ap found (same ∙ ap (λ (x : List ℕ). digest x ++ x) back)),
          )

      degrade-Right :
          (code : Code)
          → code ≢ other_code
          → IsGood c
          → Right (value_failed code) (degrade mem cache_key code c)
      unfolding degrade
      degrade-Right code named good = degrade_entry code (mem.get c cache_key) refl named good

      missing-Right :
          (b : Bool) (code : Code)
          → enabled ≡ b
          → code ≢ other_code
          → IsGood c
          → Right (value_failed code) (if b then degrade mem cache_key code c else panics)
      missing-Right true code e named good = degrade-Right code named good
      missing-Right false code e named good = (e, (code, refl, named))

      ask-Right :
          (md5 : List ℕ) (reply : ValueReply)
          → Md5 md5
          → ReplyOf reply
          → IsGood c
          → Right reply (ask_server mem enabled cache_key md5 reply c)
      unfolding ask_server
      ask-Right md5 (kv_value v) m same good =
          subst (λ (u : List ℕ). Right (kv_value u) (keep mem enabled cache_key md5 u c)) (sym same)
            (keep-Right md5 m good)
      ask-Right md5 (value_failed other_code) m _ good = (refl, refl)
      ask-Right md5 (value_failed unavailable) m _ good =
          missing-Right enabled unavailable refl (λ e. absurd (grind arith)) good
      ask-Right md5 (value_failed deadline_exceeded) m _ good =
          missing-Right enabled deadline_exceeded refl (λ e. absurd (grind arith)) good
      ask-Right md5 (value_failed internal) m _ good =
          missing-Right enabled internal refl (λ e. absurd (grind arith)) good

    module _ (cache_key : List ℕ) (c : mem.Cache) where
      ended-Right :
          (r : FromCache) (reply : ValueReply)
          → Hit true cache_key c r
          → ReplyOf reply
          → IsGood c
          → Right true cache_key c reply (elim r [
            | hit val ↦ value val c
            | miss md5 ↦ ask_server mem true cache_key md5 reply c
            | short ↦ panics
          ])
      ended-Right (hit val) reply h same good = (good, inl h)
      ended-Right (miss md5) reply h same good = ask-Right true cache_key c md5 reply h same good
      ended-Right short reply h same good = absurd h

    -- Every entry of the cache is a value behind its md5, which 32 bytes are, and the metas and the
    -- value that the server answers are those of one version. Then `Get` keeps the cache so. A value
    -- it returns has the md5 of the server's value, or else the server answers that it is not
    -- available, and the value is the one in the cache. An error is the server's, and leaves the cache
    -- as it was. `Get` panics only where the memory cache is off and the server is not available. The
    -- cache may drop entries, but what it has was set.
    pub get-Right :
        (enabled : Bool) (biz_id app : List ℕ) (metas : MetaReply) (reply : ValueReply)
        (c : mem.Cache)
        → MetasOf metas
        → ReplyOf reply
        → IsGood c
        → Right enabled
            (kv_cache_key biz_id app key)
            c
            reply
            (get mem enabled biz_id app key metas reply c)
    unfolding get
    get-Right false biz_id app metas reply c h same good =
        ask-Right false (kv_cache_key biz_id app key) c [] reply (inl refl) same good
    get-Right true biz_id app metas reply c h same good =
        ended-Right (kv_cache_key biz_id app key) c
          (get_kv_value_from_cache mem (kv_cache_key biz_id app key) key metas c) reply
          (from_cache true (kv_cache_key biz_id app key) c metas h good) same good
