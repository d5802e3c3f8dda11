-- ===== src/Config/Tests.antt =====
-- The theorems on `Validate` at a configuration of two apps.
use bscp_go.Prelude.{◌≡◌, true, false, none, [], ◌∷◌, codes, pos}
use bscp_go.Config.{AppConfig, ClientConfig}
use bscp_go.Config.Accepted.{accepts, validate-runnable}

abbrev pub app_one : AppConfig
app_one = record { name = codes "one"; labels = []; uid = []; config_matches = [] }

abbrev app_two : AppConfig
app_two = record { name = codes "two"; labels = []; uid = []; config_matches = codes "/etc/*" ∷ [] }

-- A label of its own, and a file of labels.
abbrev pub conf : ClientConfig
conf = record {
  config_file = [];
  feed_addrs = codes "10.0.0.1:9510" ∷ [];
  feed_addr = [];
  biz = 2;
  token = codes "secret";
  apps = app_one ∷ app_two ∷ [];
  app = [];
  labels = (codes "env", codes "stag") ∷ [];
  labels_str = [];
  uid = [];
  temp_dir = [];
  labels_file = codes "labels.json";
  config_matches = [];
  port = pos 0;
  enable_p2p_download = false;
  bk_agent_id = [];
  cluster_id = [];
  pod_id = [];
  container_name = [];
  file_cache = none;
  kv_cache = none;
  enable_monitor_resource_usage = false;
  text_line_break = [];
}

validate-runnable_example : accepts conf ≡ true
validate-runnable_example = validate-runnable conf
