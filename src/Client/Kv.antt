-- ===== src/Client/Kv.antt =====
-- client/client.go: `Get`, which reads a key's value through the memory cache, `getKvValueFromCache`
-- and `kvCacheKey`. Texts are byte strings.
pub mod Cached
pub mod Shared
mod Tests
use bscp_go.Prelude.{
  ℕ, Bool, true, false, not, Option, none, some, List, [], ◌∷◌, ◌++◌, ltb, ◌==◌, if◌then◌else◌,
  length, take, drop, bytes_eq,
}

-- A kv's name and md5 in the answer of `PullKvMeta`.
pub record KvMeta : Type 0 where
  pub key : List ℕ
  pub md5 : List ℕ

pub data MetaReply : Type 0 where
  kv_metas : List KvMeta → MetaReply
  meta_failed : MetaReply

pub data Code : Type 0 where
  unavailable deadline_exceeded internal other_code : Code

pub data ValueReply : Type 0 where
  kv_value : List ℕ → ValueReply
  value_failed : Code → ValueReply

-- What `bigcache` answers.
pub data Entry : Type 0 where
  found : List ℕ → Entry
  entry_not_found cache_failed : Entry

-- `bigcache`: a cache that may drop entries, and whose `Set` may fail (`none`).
pub record MemCache : Type 1 where
  pub Cache : Type 0
  pub get : Cache → List ℕ → Entry
  pub set : Cache → List ℕ → List ℕ → Option Cache

-- `kvCacheKey`, with the biz id as it is printed; 95 is the underscore.
pub kv_cache_key : List ℕ → List ℕ → List ℕ → List ℕ
kv_cache_key biz_id app key = biz_id ++ (95 ∷ (app ++ (95 ∷ key)))

-- The md5 of the first kv with the key, empty if there is none.
pub find_md5 : List ℕ → List KvMeta → List ℕ
find_md5 key [] = []
find_md5 key (k ∷ ks) = if bytes_eq k.key key then k.md5 else find_md5 key ks

-- What `getKvValueFromCache` comes to: a value, or an error with the md5 that `Get` goes on with.
-- `short`: the entry is cut at 32 and is not that long.
pub data FromCache : Type 0 where
  hit : List ℕ → FromCache
  miss : List ℕ → FromCache
  short : FromCache

pub compare_md5 : List ℕ → Entry → FromCache
compare_md5 md5 entry_not_found = miss md5
compare_md5 md5 cache_failed = miss md5
compare_md5 md5 (found val) =
    if ltb (length val) 32
    then short
    else if bytes_eq (take 32 val) md5
    then hit (drop 32 val)
    else miss md5

-- How `Get` ends: a value or an error, and the cache. `panics`: an index is out of range, or the
-- answer is nil where its value is read.
pub data Got {ℓ} (C : Type ℓ) : Type ℓ where
  value : List ℕ → C → Got C
  error : Code → C → Got C
  panics : Got C

module _ (mem : MemCache) where
  -- `getKvValueFromCache`
  pub get_kv_value_from_cache : List ℕ → List ℕ → MetaReply → mem.Cache → FromCache
  unfolding compare_md5 find_md5
  get_kv_value_from_cache cache_key key meta_failed c = miss []
  get_kv_value_from_cache cache_key key (kv_metas ks) c =
      let md5 = find_md5 key ks in
      if length md5 == 0 then miss [] else compare_md5 md5 (mem.get c cache_key)

  -- The end of `Get`: the value is cached under its md5, if it has one.
  pub keep : Bool → List ℕ → List ℕ → List ℕ → mem.Cache → Got mem.Cache
  keep enable_mem_cache cache_key md5 val c =
      if not enable_mem_cache
      then value val c
      else if length md5 == 0
      then value val c
      else elim (mem.set c cache_key (md5 ++ val)) [ none ↦ value val c | some c' ↦ value val c' ]

  -- The cache in place of the server.
  pub degrade : List ℕ → Code → mem.Cache → Got mem.Cache
  degrade cache_key code c = elim (mem.get c cache_key) [
    | entry_not_found ↦ error code c
    | cache_failed ↦ error code c
    | found v ↦ if ltb (length v) 32 then panics else value (drop 32 v) c
  ]

  -- `Get` from the request to the server on. The answer of a failed request is nil, and without
  -- the cache its value is read all the same.
  pub ask_server : Bool → List ℕ → List ℕ → ValueReply → mem.Cache → Got mem.Cache
  unfolding keep degrade
  ask_server enable_mem_cache cache_key md5 (kv_value val) c =
      keep enable_mem_cache cache_key md5 val c
  ask_server enable_mem_cache cache_key md5 (value_failed other_code) c = error other_code c
  ask_server enable_mem_cache cache_key md5 (value_failed unavailable) c =
      if enable_mem_cache then degrade cache_key unavailable c else panics
  ask_server enable_mem_cache cache_key md5 (value_failed deadline_exceeded) c =
      if enable_mem_cache then degrade cache_key deadline_exceeded c else panics
  ask_server enable_mem_cache cache_key md5 (value_failed internal) c =
      if enable_mem_cache then degrade cache_key internal c else panics

  -- `Get`
  pub get : Bool → List ℕ → List ℕ → List ℕ → MetaReply → ValueReply → mem.Cache → Got mem.Cache
  unfolding get_kv_value_from_cache ask_server kv_cache_key
  get enable_mem_cache biz_id app key metas reply c =
      let cache_key = kv_cache_key biz_id app key in
      if not enable_mem_cache
      then ask_server false cache_key [] reply c
      else elim (get_kv_value_from_cache cache_key key metas c) [
        | hit val ↦ value val c
        | miss md5 ↦ ask_server true cache_key md5 reply c
        | short ↦ panics
      ]
