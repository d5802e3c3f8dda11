-- ===== src/Config/Update.antt =====
-- internal/config/config.go: `Update`, which merges the flags, the environment and the files into
-- the configuration.
use bscp_go.Prelude.{
  Bool, not, ◌&&◌, Option, none, some, List, [], ◌∷◌, ◌++◌, map, ◌==◌, if◌then◌else◌, bytes_eq,
  Text, codes, is_empty, has_prefix, trim_prefix, split, trim_space,
}
pub mod Defaults
pub mod Environment
pub mod Success
pub mod Kept
pub mod Precedence
pub mod Tests
use bscp_go.Prelude.Options.{◌>>=◌}
use bscp_go.Labels.{Map, lookup, put, merge_labels}
use bscp_go.Config.{AppConfig, ClientConfig, no_entries}

-- What `os.Stat` says of the file of labels.
pub data Stat : Type 0 where
  present missing stat_failed : Stat

-- What `Update` reads: the file of labels, as viper reads and decodes it (`none` for an error), the
-- labels that `json.Unmarshal` finds in a text, `os.Environ`, and `util.GetClientIP`.
pub record Outside : Type 0 where
  pub stat : Stat
  pub read_in_config : Bool
  pub unmarshal_file : Option (Map Text)
  pub unmarshal : Text → Option (Map Text)
  pub environ : List Text
  pub client_ip : Text

pub data UpdateErr : Type 0 where
  labels_not_json stat_labels_failed read_labels_failed unmarshal_labels_failed : UpdateErr

-- `panicked`: an index is out of range.
pub data Updated : Type 0 where
  updated : Option UpdateErr → ClientConfig → Updated
  panicked : Updated

-- `updateConfFeedAddrs`
pub update_feed_addrs : ClientConfig → ClientConfig
update_feed_addrs c =
    if no_entries c.feed_addrs && not (is_empty c.feed_addr)
    then record c { feed_addrs = split b',' c.feed_addr }
    else c

abbrev app_named : Text → AppConfig
app_named name = record { name = trim_space name; labels = []; uid = []; config_matches = [] }

-- `updateConfApps`
pub update_apps : ClientConfig → ClientConfig
update_apps c = if is_empty c.app then c else record c { apps = map app_named (split b',' c.app) }

abbrev add_matches : List Text → AppConfig → AppConfig
add_matches matches a = record a { config_matches = a.config_matches ++ matches }

-- `updateConfMatches`
pub update_matches : ClientConfig → ClientConfig
update_matches c =
    if no_entries c.config_matches
    then c
    else record c { apps = map (add_matches c.config_matches) c.apps }

-- `kv[0]` and `kv[1]`; `none` is an index out of range.
pub key_value : Text → Option (Text × Text)
key_value env = elim (split b'=' env) [ k ∷ v ∷ more ↦ some (k, v) | _ ↦ none ]

abbrev pub env_labels_prefix : Text
env_labels_prefix = codes "labels_"

-- What the loop does with a variable.
pub add_env_label : Text → Text → Map Text → Map Text
add_env_label k v labels =
    if bytes_eq k (codes "labels_file")
    then labels
    else if has_prefix k env_labels_prefix && not (is_empty (trim_prefix k env_labels_prefix))
    then put (trim_prefix k env_labels_prefix) v labels
    else labels

-- The loop of `updateLabelsFromEnv`; `none` if it panics.
pub env_labels : List Text → Map Text → Option (Map Text)
env_labels [] labels = some labels
env_labels (env ∷ envs) labels = elim (key_value env) [
  | none ↦ none
  | some (k, v) ↦ env_labels envs (add_env_label k v labels)
]

-- `readLabelsFile`
pub data FileLabels : Type 0 where
  labels_read : Map Text → FileLabels
  labels_failed : UpdateErr → FileLabels

pub read_labels_file : Outside → FileLabels
read_labels_file o = elim o.stat [
  | missing ↦ labels_read []
  | stat_failed ↦ labels_failed stat_labels_failed
  | present ↦
      if not o.read_in_config then labels_failed read_labels_failed else elim o.unmarshal_file [
        | none ↦ labels_failed unmarshal_labels_failed
        | some labels ↦ labels_read labels
      ]
]

-- `os.Getenv`: the value of the first variable with the name, empty if there is none.
pub after_equals : Text → Text
after_equals [] = []
after_equals (c ∷ s) = if c == b'=' then s else after_equals s

pub getenv : Text → List Text → Text
unfolding after_equals
getenv k [] = []
getenv k (env ∷ envs) = if has_prefix env (k ++ b'=' ∷ []) then after_equals env else getenv k envs

-- The variable `defaultLabels`
abbrev pub default_labels : List Text
default_labels =
    codes "ip" ∷ codes "pod_name" ∷ codes "pod_id" ∷ codes "node_name" ∷ codes "namespace" ∷ []

-- A round of the loop of `setDefaultLabels`.
pub set_default_label : Outside → Text → Map Text → Map Text
set_default_label o label labels =
    let e = getenv label o.environ in
    let with_ip = if bytes_eq label (codes "ip") then put label o.client_ip labels else labels in
    elim (lookup label labels) [
      | some v ↦ labels
      | none ↦ if is_empty e then with_ip else put label e with_ip
    ]

-- `setDefaultLabels`
pub set_default_labels : Outside → List Text → Map Text → Map Text
unfolding set_default_label
set_default_labels o [] labels = labels
set_default_labels o (l ∷ ls) labels = set_default_labels o ls (set_default_label o l labels)

-- `updateLabelsFromEnv`; `none` if it panics.
pub update_labels_from_env : Outside → ClientConfig → Option ClientConfig
update_labels_from_env o c = do
  envs ← env_labels o.environ []
  some (record c { labels = merge_labels (c.labels ∷ envs ∷ []) })

abbrev with_defaults : Outside → ClientConfig → Updated
with_defaults o c =
    updated none (record c { labels = set_default_labels o default_labels c.labels })

-- The end of `updateConfLabels`, from the test of `LabelsFile` on.
pub finish_labels : Outside → ClientConfig → Updated
finish_labels o c =
    if is_empty c.labels_file then with_defaults o c else elim (read_labels_file o) [
      | labels_failed e ↦ updated (some e) c
      | labels_read labels ↦
          with_defaults o (record c { labels = merge_labels (c.labels ∷ labels ∷ []) })
    ]

pub env_and_file : Outside → ClientConfig → Updated
env_and_file o c = elim (update_labels_from_env o c) [
  | none ↦ panicked
  | some c' ↦ finish_labels o c'
]

-- `updateConfLabels`
pub update_labels : Outside → ClientConfig → Updated
update_labels o c =
    if is_empty c.labels_str then env_and_file o c else elim (o.unmarshal c.labels_str) [
      | none ↦ updated (some labels_not_json) c
      | some labels ↦ env_and_file o (record c { labels = merge_labels (c.labels ∷ labels ∷ []) })
    ]

-- `Update`
pub update : Outside → ClientConfig → Updated
update o c = update_labels o (update_matches (update_apps (update_feed_addrs c)))
