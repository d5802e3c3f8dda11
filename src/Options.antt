-- ===== src/Options.antt =====
-- client/options.go: the options of a client and of an app, and their setters. Every setter of the
-- package returns no error.
use bscp_go.Prelude.{ℕ, Bool, false, List, [], ◌∷◌, Text, ℤ, pos, Float, ratio}
use bscp_go.Labels.{Map}

pub record FileCache : Type 0 where
  pub enabled : Bool
  pub cache_dir : Text
  pub threshold_gb : Float

pub record KvCache : Type 0 where
  pub enabled : Bool
  pub threshold_mb : Float

pub record Options : Type 0 where
  pub feed_addrs : List Text
  pub biz_id : ℕ
  pub labels : Map Text
  pub fingerprint : Text
  pub uid : Text
  pub dial_timeout_ms : ℤ
  pub token : Text
  pub enable_p2p_download : Bool
  pub bk_agent_id : Text
  pub cluster_id : Text
  pub pod_id : Text
  pub container_name : Text
  pub file_cache : FileCache
  pub kv_cache : KvCache
  pub enable_monitor_resource_usage : Bool
  pub text_line_break : Text

-- `options{}`, all fields unset.
abbrev pub no_options : Options
no_options = record {
  feed_addrs = [];
  biz_id = 0;
  labels = [];
  fingerprint = [];
  uid = [];
  dial_timeout_ms = pos 0;
  token = [];
  enable_p2p_download = false;
  bk_agent_id = [];
  cluster_id = [];
  pod_id = [];
  container_name = [];
  file_cache = record { enabled = false; cache_dir = []; threshold_gb = ratio (pos 0) 0 };
  kv_cache = record { enabled = false; threshold_mb = ratio (pos 0) 0 };
  enable_monitor_resource_usage = false;
  text_line_break = [];
}

-- `Option`
abbrev pub Setter : Type 0
Setter = Options → Options

pub with_feed_addrs : List Text → Setter
with_feed_addrs addrs o = record o { feed_addrs = addrs }

pub with_feed_addr : Text → Setter
with_feed_addr addr o = record o { feed_addrs = addr ∷ [] }

pub with_biz_id : ℕ → Setter
with_biz_id id o = record o { biz_id = id }

unfoldable pub with_labels : Map Text → Setter
with_labels labels o = record o { labels = labels }

unfoldable pub with_uid : Text → Setter
with_uid uid o = record o { uid = uid }

pub with_p2p_download : Bool → Setter
with_p2p_download enabled o = record o { enable_p2p_download = enabled }

pub with_token : Text → Setter
with_token token o = record o { token = token }

pub with_bk_agent_id : Text → Setter
with_bk_agent_id id o = record o { bk_agent_id = id }

pub with_cluster_id : Text → Setter
with_cluster_id id o = record o { cluster_id = id }

pub with_pod_id : Text → Setter
with_pod_id id o = record o { pod_id = id }

pub with_container_name : Text → Setter
with_container_name name o = record o { container_name = name }

pub with_file_cache : FileCache → Setter
with_file_cache c o = record o { file_cache = c }

pub with_kv_cache : KvCache → Setter
with_kv_cache c o = record o { kv_cache = c }

pub with_enable_monitor_resource_usage : Bool → Setter
with_enable_monitor_resource_usage enable o = record o { enable_monitor_resource_usage = enable }

pub with_text_line_break : Text → Setter
with_text_line_break line_break o = record o { text_line_break = line_break }

-- The options of an app.
pub record AppOptions : Type 0 where
  pub match_ : List Text
  pub labels : Map Text
  pub uid : Text

abbrev pub no_app_options : AppOptions
no_app_options = record { match_ = []; labels = []; uid = [] }

-- `AppOption`
abbrev pub AppSetter : Type 0
AppSetter = AppOptions → AppOptions

pub with_app_config_match : List Text → AppSetter
with_app_config_match match_ o = record o { match_ = match_ }

unfoldable pub with_app_labels : Map Text → AppSetter
with_app_labels labels o = record o { labels = labels }

unfoldable pub with_app_uid : Text → AppSetter
with_app_uid uid o = record o { uid = uid }

-- The loop over the setters.
unfoldable pub apply_all {ℓ} : {O : Type ℓ} → List (O → O) → O → O
apply_all [] o = o
apply_all (set ∷ sets) o = apply_all sets (set o)
