-- ===== src/Config/Filled.antt =====
-- The defaults that `Validate` fills in.
use bscp_go.Prelude.{
  ◌≡◌, refl, sym, ap, ◌∙◌, true, false, none, some, arith, is_empty, is_zero, not_positive,
  not_above_zero, above_one,
}
use bscp_go.Config.{
  FileCacheConfig, KvCacheConfig, ClientConfig, new_file_cache_config, new_kv_cache_config,
  validate_file_cache, validate_kv_cache, or_new, fill_dir_and_port, fill_caches, validate_base,
  validate,
}
use bscp_go.Config.Accepted.{accepts, validate-runnable}

-- The settings of the two caches are in range: a folder is named, the interval and the thresholds are
-- not 0 or below, and the retention rate is not 0 or below and not above 1.
abbrev pub FileCacheInRange : FileCacheConfig → Type 0
FileCacheInRange f =
    (is_empty f.cache_dir ≡ false)
    × (not_positive f.cleanup_interval_seconds ≡ false)
    × (not_above_zero f.threshold_gb ≡ false)
    × (not_above_zero f.retention_rate ≡ false)
    × (above_one f.retention_rate ≡ false)

validate_file_cache_lem : (f : FileCacheConfig) → FileCacheInRange (validate_file_cache f)
unfolding validate_file_cache not_positive not_above_zero above_one
validate_file_cache_lem f = (ground arith, ground arith, ground arith, ground arith, ground arith)

validate_file_cache_again : (f : FileCacheConfig) → FileCacheInRange f → validate_file_cache f ≡ f
unfolding validate_file_cache
validate_file_cache_again f h = ground arith

validate_kv_cache_lem :
    (k : KvCacheConfig) → not_above_zero (validate_kv_cache k).threshold_mb ≡ false
unfolding validate_kv_cache not_above_zero
validate_kv_cache_lem k = ground arith

validate_kv_cache_again :
    (k : KvCacheConfig) → not_above_zero k.threshold_mb ≡ false → validate_kv_cache k ≡ k
unfolding validate_kv_cache
validate_kv_cache_again k h = ground arith

abbrev filled : ClientConfig → ClientConfig
filled c = fill_caches (fill_dir_and_port c)

validated : (c : ClientConfig) → accepts c ≡ true → validate c ≡ (none, filled c)
unfolding validate validate_base
validated c h = ground arith

refill : (c : ClientConfig) → filled (filled c) ≡ filled c
unfolding fill_caches fill_dir_and_port is_zero
refill c =
    let file = or_new c.file_cache new_file_cache_config in
    let kv = or_new c.kv_cache new_kv_cache_config in
    ground (
      arith,
      validate_file_cache_again (validate_file_cache file) (validate_file_cache_lem file),
      validate_kv_cache_again (validate_kv_cache kv) (validate_kv_cache_lem kv),
    )

accepts_filled : (c : ClientConfig) → accepts (filled c) ≡ accepts c
unfolding fill_caches fill_dir_and_port
accepts_filled c = validate-runnable (filled c) ∙ sym (validate-runnable c)

-- The ranges of an accepted config.
abbrev pub InRange : ClientConfig → Type 0
InRange c =
    (is_empty c.temp_dir ≡ false)
    × (is_zero c.port ≡ false)
    × ((f : FileCacheConfig) × (c.file_cache ≡ some f) × FileCacheInRange f)
    × ((k : KvCacheConfig) × (c.kv_cache ≡ some k) × (not_above_zero k.threshold_mb ≡ false))

-- An accepted config has a folder for temporary files and a port, and the settings of both caches are
-- present and in range.
pub validate-InRange : (c : ClientConfig) → accepts c ≡ true → InRange (validate c).1
unfolding fill_caches fill_dir_and_port is_zero
validate-InRange c h =
    let file = or_new c.file_cache new_file_cache_config in
    let kv = or_new c.kv_cache new_kv_cache_config in
    rw (validated c h) (
      ground arith,
      ground arith,
      (validate_file_cache file, refl, validate_file_cache_lem file),
      (validate_kv_cache kv, refl, validate_kv_cache_lem kv),
    )

-- To validate an accepted config again changes nothing.
pub validate-again : (c : ClientConfig) → accepts c ≡ true → validate (validate c).1 ≡ validate c
validate-again c h =
    rw (validated c h) (
      validated (filled c) (accepts_filled c ∙ h) ∙ ap (λ (d : ClientConfig). (none, d)) (refill c))
