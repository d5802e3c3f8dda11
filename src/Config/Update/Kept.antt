-- ===== src/Config/Update/Kept.antt =====
-- `Update` keeps the labels a map.
use bscp_go.Prelude.{
  inl, inr, Bool, true, false, List, [], ◌∷◌, if◌then◌else◌, Bool-cases, Option-cases, bytes_eq,
  Text, codes, is_empty,
}
use bscp_go.Labels.{Map, lookup, put, merge_labels, IsMap}
use bscp_go.Labels.Priority.{put-IsMap, merge_labels-IsMap}
use bscp_go.Config.{ClientConfig}
use bscp_go.Config.Update.{
  Outside, Updated, update_matches, env_labels, read_labels_file, getenv, default_labels,
  set_default_label, set_default_labels, finish_labels, env_and_file, update_labels, update,
}
use bscp_go.Config.Update.Precedence.{
  labels_after, FileLabels-cases, env_and_file-some, env_and_file-none, prepared, labels_prepared,
}

abbrev LabelsAreMap : Updated → Type 0
LabelsAreMap u = IsMap (labels_after u)

put_if-IsMap : (b : Bool) (k v : Text) (m : Map Text) → IsMap m → IsMap (if b then put k v m else m)
put_if-IsMap true k v m h = put-IsMap k v m h
put_if-IsMap false k v m h = h

set_default_label-IsMap :
    (o : Outside) (l : Text) (m : Map Text) → IsMap m → IsMap (set_default_label o l m)
unfolding set_default_label
set_default_label-IsMap o l m h = elim (Option-cases (lookup l m)) [
  | inr (v, e) ↦ rw (e, set_default_label) h
  | inl e ↦
      let with_ip = put_if-IsMap (bytes_eq l (codes "ip")) l o.client_ip m h in
      rw (e, set_default_label)
        (elim (Bool-cases (is_empty (getenv l o.environ))) [
          | inl f ↦ rw f with_ip
          | inr f ↦ rw f (
              put-IsMap l (getenv l o.environ)
                (if bytes_eq l (codes "ip") then put l o.client_ip m else m) with_ip)
        ])
]

set_default_labels-IsMap :
    (o : Outside) (ls : List Text) (m : Map Text) → IsMap m → IsMap (set_default_labels o ls m)
unfolding set_default_labels
set_default_labels-IsMap o [] m h = h
set_default_labels-IsMap o (l ∷ ls) m h =
    set_default_labels-IsMap o ls (set_default_label o l m) (set_default_label-IsMap o l m h)

finish_labels-LabelsAreMap :
    (o : Outside) (c : ClientConfig) → IsMap c.labels → LabelsAreMap (finish_labels o c)
unfolding finish_labels
finish_labels-LabelsAreMap o c h = elim (Bool-cases (is_empty c.labels_file)) [
  | inl e ↦ rw (e, finish_labels) (set_default_labels-IsMap o default_labels c.labels h)
  | inr e ↦ elim (FileLabels-cases (read_labels_file o)) [
    | inl (m, f) ↦
        rw (e, f, finish_labels)
          (set_default_labels-IsMap o default_labels (merge_labels (c.labels ∷ m ∷ []))
            (merge_labels-IsMap (c.labels ∷ m ∷ [])))
    | inr (err, f) ↦ rw (e, f, finish_labels) h
  ]
]

env_and_file-LabelsAreMap : (o : Outside) (c : ClientConfig) → LabelsAreMap (env_and_file o c)
env_and_file-LabelsAreMap o c = elim (Option-cases (env_labels o.environ [])) [
  | inl e ↦ rw (env_and_file-none o c e) tt
  | inr (m, e) ↦ rw (env_and_file-some o c m e) (
      finish_labels-LabelsAreMap o (record c { labels = merge_labels (c.labels ∷ m ∷ []) })
        (merge_labels-IsMap (c.labels ∷ m ∷ [])))
]

update_labels-LabelsAreMap :
    (o : Outside) (c : ClientConfig) → IsMap c.labels → LabelsAreMap (update_labels o c)
unfolding update_labels
update_labels-LabelsAreMap o c h = elim (Bool-cases (is_empty c.labels_str)) [
  | inl e ↦ rw (e, update_labels) (env_and_file-LabelsAreMap o c)
  | inr e ↦ elim (Option-cases (o.unmarshal c.labels_str)) [
    | inl f ↦ rw (e, f, update_labels) h
    | inr (m, f) ↦
        rw (e, f, update_labels)
          (env_and_file-LabelsAreMap o (record c { labels = merge_labels (c.labels ∷ m ∷ []) }))
  ]
]

-- The labels are a map behind `Update`, whether it succeeds or not.
pub update-LabelsAreMap :
    (o : Outside) (c : ClientConfig) → IsMap c.labels → IsMap (labels_after (update o c))
unfolding update update_matches
update-LabelsAreMap o c h = update_labels-LabelsAreMap o (prepared o c) (rw (labels_prepared o c) h)
