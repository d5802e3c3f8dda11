-- ===== src/Cmd/Watch.antt =====
-- cmd/bscp/watch.go: the labels and options of `Watch`, `refineLabelsFile`; cmd/bscp/common.go:
-- `watchLabelsFile`.
pub mod Reloaded
mod Tests
use bscp_go.Prelude.{Bool, ◌&&◌, Option, none, some, List, [], ◌∷◌, if◌then◌else◌, Text, codes}
use bscp_go.Labels.{Map, put, merge_labels, deep_equal}
use bscp_go.Options.{
  FileCache, KvCache, no_options, Setter, with_feed_addrs, with_biz_id, with_labels, with_uid,
  with_p2p_download, with_token, with_bk_agent_id, with_cluster_id, with_pod_id,
  with_container_name, with_file_cache, with_kv_cache, with_enable_monitor_resource_usage,
  with_text_line_break, AppSetter, with_app_config_match, with_app_labels, with_app_uid,
}
use bscp_go.Config.{AppConfig, FileCacheConfig, KvCacheConfig, ClientConfig}

-- An event of the folder of the labels file: whether it is only a write, and of the file; what reading
-- the file then comes to.
pub data ReadFile : Type 0 where
  read_failed unmarshal_failed : ReadFile
  content_read : Map Text → ReadFile

pub record FsEvent : Type 0 where
  pub is_write : Bool
  pub of_file : Bool
  pub reads : ReadFile

-- `ReloadMessage`
pub data Message : Type 0 where
  reload_failed : Message
  reloaded : Map Text → Message

-- What the goroutine of `watchLabelsFile` does with a file that was read: the labels it has, and the
-- message that it sends, if any.
pub on_read : ReadFile → Map Text → Map Text × Option Message
on_read read_failed old = (old, some reload_failed)
on_read unmarshal_failed old = (old, some reload_failed)
on_read (content_read new) old =
    if deep_equal new (some old) then (old, none) else (new, some (reloaded new))

-- A round of the goroutine: only a write of the file itself is looked at.
pub on_event : FsEvent → Map Text → Map Text × Option Message
unfolding on_read
on_event e old = if e.is_write && e.of_file then on_read e.reads old else (old, none)

abbrev pub also : Option Message → List Message → List Message
also none ms = ms
also (some m) ms = m ∷ ms

-- The loop of `watchLabelsFile`.
pub watch_labels_file : List FsEvent → Map Text → Map Text × List Message
unfolding on_event
watch_labels_file [] old = (old, [])
watch_labels_file (e ∷ es) old =
    let (new, sent) = on_event e old in
    let (last, more) = watch_labels_file es new in (last, also sent more)

-- The labels that `refineLabelsFile` gives to the client.
pub refined_labels : Map Text → Map Text → Map Text
refined_labels conf_labels file = merge_labels (conf_labels ∷ file ∷ [])

-- `conf.Labels` behind the step that sets the pod's name.
pub with_pod_name : Bool → Text → Map Text → Map Text
with_pod_name is_sidecar hostname labels =
    if is_sidecar then put (codes "pod_name") hostname labels else labels

-- The labels that the client is made with. Without a labels file they are the map `conf.Labels` itself,
-- which the pod's name is then put in; with one (`some`, with its labels) they were merged before.
pub client_labels : Bool → Text → Option (Map Text) → Map Text → Map Text
unfolding with_pod_name refined_labels
client_labels is_sidecar hostname none labels = with_pod_name is_sidecar hostname labels
client_labels is_sidecar hostname (some file) labels = refined_labels labels file

-- The labels of a reload: of `conf.Labels` and of the file's new content.
pub reload_labels : Bool → Text → Map Text → Map Text → Map Text
unfolding with_pod_name
reload_labels is_sidecar hostname labels file =
    merge_labels (with_pod_name is_sidecar hostname labels ∷ file ∷ [])

-- `conf.FileCache` and `conf.KvCache`, which `Validate` has set.
abbrev file_cache_of : Option FileCacheConfig → FileCache
file_cache_of none = no_options.file_cache
file_cache_of (some f) = record {
  enabled = f.enabled;
  cache_dir = f.cache_dir;
  threshold_gb = f.threshold_gb;
}

abbrev kv_cache_of : Option KvCacheConfig → KvCache
kv_cache_of none = no_options.kv_cache
kv_cache_of (some k) = record { enabled = k.enabled; threshold_mb = k.threshold_mb }

-- The setters of `newWatchClient`.
pub watch_setters : ClientConfig → Map Text → List Setter
watch_setters conf labels =
    with_feed_addrs conf.feed_addrs
    ∷ with_biz_id conf.biz
    ∷ with_token conf.token
    ∷ with_labels labels
    ∷ with_uid conf.uid
    ∷ with_p2p_download conf.enable_p2p_download
    ∷ with_bk_agent_id conf.bk_agent_id
    ∷ with_cluster_id conf.cluster_id
    ∷ with_pod_id conf.pod_id
    ∷ with_container_name conf.container_name
    ∷ with_file_cache (file_cache_of conf.file_cache)
    ∷ with_kv_cache (kv_cache_of conf.kv_cache)
    ∷ with_enable_monitor_resource_usage conf.enable_monitor_resource_usage
    ∷ with_text_line_break conf.text_line_break
    ∷ []

-- `getSubscribeOptions`
pub subscribe_options : AppConfig → List AppSetter
subscribe_options a =
    with_app_labels a.labels ∷ with_app_uid a.uid ∷ with_app_config_match a.config_matches ∷ []
