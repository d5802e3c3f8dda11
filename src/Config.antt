-- ===== src/Config.antt =====
-- internal/config/config.go: the configuration of the client, its defaults, and its validation.
-- A text is a list of code points.
pub mod Accepted
pub mod Update
pub mod Filled
pub mod Tests
use bscp_go.Prelude.{
  ℕ, Bool, true, false, ◌&&◌, ◌||◌, Option, none, some, List, [], ◌∷◌, ◌==◌, if◌then◌else◌, Text,
  codes, is_empty, ℤ, pos, is_zero, not_positive, Float, ratio, not_above_zero, above_one,
}
use bscp_go.Labels.{Map, lookup, put}

pub record AppConfig : Type 0 where
  pub name : Text
  pub labels : Map Text
  pub uid : Text
  pub config_matches : List Text

pub record FileCacheConfig : Type 0 where
  pub enabled : Bool
  pub cache_dir : Text
  pub cleanup_interval_seconds : ℤ
  pub threshold_gb : Float
  pub retention_rate : Float

pub record KvCacheConfig : Type 0 where
  pub enabled : Bool
  pub threshold_mb : Float

-- A nil map of labels is the empty one; the pointers of the apps are not nil, and point at apps of
-- their own.
pub record ClientConfig : Type 0 where
  pub config_file : Text
  pub feed_addrs : List Text
  pub feed_addr : Text
  pub biz : ℕ
  pub token : Text
  pub apps : List AppConfig
  pub app : Text
  pub labels : Map Text
  pub labels_str : Text
  pub uid : Text
  pub temp_dir : Text
  pub labels_file : Text
  pub config_matches : List Text
  pub port : ℤ
  pub enable_p2p_download : Bool
  pub bk_agent_id : Text
  pub cluster_id : Text
  pub pod_id : Text
  pub container_name : Text
  pub file_cache : Option FileCacheConfig
  pub kv_cache : Option KvCacheConfig
  pub enable_monitor_resource_usage : Bool
  pub text_line_break : Text

-- The constants of internal/constant.
abbrev pub default_temp_dir : Text
default_temp_dir = codes "/data/bscp"

abbrev pub default_http_port : ℤ
default_http_port = pos 9616

abbrev pub default_file_cache_dir : Text
default_file_cache_dir = codes "/data/bscp/cache"

abbrev pub default_cleanup_interval_seconds : ℤ
default_cleanup_interval_seconds = pos 300

abbrev pub default_cache_threshold_gb : Float
default_cache_threshold_gb = ratio (pos 2) 0

abbrev pub default_cache_retention_rate : Float
default_cache_retention_rate = ratio (pos 9) 9

abbrev pub default_kv_cache_threshold_mb : Float
default_kv_cache_threshold_mb = ratio (pos 500) 0

-- `new(FileCacheConfig)` and `new(KvCacheConfig)`
abbrev pub new_file_cache_config : FileCacheConfig
new_file_cache_config = record {
  enabled = false;
  cache_dir = [];
  cleanup_interval_seconds = pos 0;
  threshold_gb = ratio (pos 0) 0;
  retention_rate = ratio (pos 0) 0;
}

abbrev pub new_kv_cache_config : KvCacheConfig
new_kv_cache_config = record { enabled = false; threshold_mb = ratio (pos 0) 0 }

-- `FileCacheConfig.Validate`, whose error is always nil.
pub validate_file_cache : FileCacheConfig → FileCacheConfig
unfolding not_positive not_above_zero above_one
validate_file_cache c = record c {
  cache_dir = if is_empty c.cache_dir then default_file_cache_dir else c.cache_dir;
  cleanup_interval_seconds =
      if not_positive c.cleanup_interval_seconds
      then default_cleanup_interval_seconds
      else c.cleanup_interval_seconds;
  threshold_gb =
      if not_above_zero c.threshold_gb then default_cache_threshold_gb else c.threshold_gb;
  retention_rate =
      if not_above_zero c.retention_rate || above_one c.retention_rate
      then default_cache_retention_rate
      else c.retention_rate;
}

-- `KvCacheConfig.Validate`, whose error is always nil.
pub validate_kv_cache : KvCacheConfig → KvCacheConfig
unfolding not_above_zero
validate_kv_cache c = record c {
  threshold_mb =
      if not_above_zero c.threshold_mb then default_kv_cache_threshold_mb else c.threshold_mb;
}

pub data ConfigErr : Type 0 where
  feed_addrs_empty biz_empty token_empty p2p_ids_unset apps_empty app_empty : ConfigErr
  app_repeated : Text → ConfigErr

abbrev pub or_new {ℓ} : {A : Type ℓ} → Option A → A → A
or_new none a = a
or_new (some x) a = x

abbrev pub lacks_p2p_ids : ClientConfig → Bool
lacks_p2p_ids c =
    is_empty c.bk_agent_id
    && (is_empty c.cluster_id || is_empty c.pod_id || is_empty c.container_name)

-- The two defaults that are filled in before the test of the ids.
pub fill_dir_and_port : ClientConfig → ClientConfig
unfolding is_zero
fill_dir_and_port c = record c {
  temp_dir = if is_empty c.temp_dir then default_temp_dir else c.temp_dir;
  port = if is_zero c.port then default_http_port else c.port;
}

pub fill_caches : ClientConfig → ClientConfig
fill_caches c = record c {
  file_cache = some (validate_file_cache (or_new c.file_cache new_file_cache_config));
  kv_cache = some (validate_kv_cache (or_new c.kv_cache new_kv_cache_config));
}

abbrev pub no_entries {ℓ} : {A : Type ℓ} → List A → Bool
no_entries [] = true
no_entries (x ∷ xs) = false

-- `ValidateBase`: the error, and the config with the defaults that were filled in before it.
pub validate_base : ClientConfig → Option ConfigErr × ClientConfig
validate_base c =
    let filled = fill_dir_and_port c in
    if no_entries c.feed_addrs
    then (some feed_addrs_empty, c)
    else if c.biz == 0
    then (some biz_empty, c)
    else if is_empty c.token
    then (some token_empty, c)
    else if c.enable_p2p_download && lacks_p2p_ids c
    then (some p2p_ids_unset, filled)
    else (none, fill_caches filled)

-- `AppConfig.Validate`
pub validate_app : AppConfig → Option ConfigErr
validate_app a = if is_empty a.name then some app_empty else none

-- The loop of `Validate`; `exists` holds the names that were seen.
pub check_apps : List AppConfig → Map Bool → Option ConfigErr
unfolding validate_app lookup put
check_apps [] exists = none
check_apps (a ∷ apps) exists =
    let rest = check_apps apps (put a.name true exists) in
    elim (lookup a.name exists) [
      | some seen ↦ some (app_repeated a.name)
      | none ↦ elim (validate_app a) [ some e ↦ some e | none ↦ rest ]
    ]

-- `Validate`
pub validate : ClientConfig → Option ConfigErr × ClientConfig
unfolding validate_base check_apps
validate c =
    let (base_err, c') = validate_base c in
    elim base_err [
      | some e ↦ (some e, c')
      | none ↦ if no_entries c'.apps then (some apps_empty, c') else (check_apps c'.apps [], c')
    ]
