-- ===== src/Client/Kv/Shared.antt =====
-- `Get` without the cache, and the entries that two keys share.
use bscp_go.Prelude.{ℕ, ◌≡◌, refl, ap, ◌≢◌, false, List, ◌∷◌, ◌++◌, append_assoc}
use bscp_go.Client.Kv.{
  MetaReply, Code, unavailable, deadline_exceeded, internal, other_code, value_failed, MemCache,
  kv_cache_key, panics, ask_server, get,
}

-- `Get` without the memory cache panics when the server answers that it is not available, that the
-- deadline is exceeded, or an internal error, whatever the metas.
pub get-panics :
    (mem : MemCache) (biz_id app key : List ℕ) (metas : MetaReply) (code : Code) (c : mem.Cache)
    → code ≢ other_code
    → get mem false biz_id app key metas (value_failed code) c ≡ panics
unfolding get ask_server
get-panics mem biz_id app key metas unavailable c h = refl
get-panics mem biz_id app key metas deadline_exceeded c h = refl
get-panics mem biz_id app key metas internal c h = refl
get-panics mem biz_id app key metas other_code c h = absurd (h refl)

-- Two keys of two apps share one entry of the cache where one app's name is the other's and an
-- underscore and the key's beginning.
pub kv_cache_key-shared :
    (biz_id app middle key : List ℕ)
    → kv_cache_key biz_id (app ++ (95 ∷ middle)) key
      ≡ kv_cache_key biz_id app (middle ++ (95 ∷ key))
unfolding kv_cache_key
kv_cache_key-shared biz_id app middle key =
    ap (λ (zs : List ℕ). biz_id ++ (95 ∷ zs)) (append_assoc app (95 ∷ middle) (95 ∷ key))
