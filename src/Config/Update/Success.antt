-- ===== src/Config/Update/Success.antt =====
-- When `Update` succeeds.
use bscp_go.Prelude.{
  ◌≡◌, refl, inl, inr, Bool, true, false, not, ◌&&◌, ◌||◌, [], ◌∷◌, arith, Bool-cases, Option-cases,
  is_none, is_empty,
}
use bscp_go.Labels.{merge_labels}
use bscp_go.Config.{ClientConfig}
use bscp_go.Config.Update.{
  present, missing, stat_failed, Outside, update_matches, env_labels, FileLabels, labels_read,
  labels_failed, read_labels_file, update_labels_from_env, finish_labels, env_and_file,
  update_labels, update,
}
use bscp_go.Config.Update.Environment.{all_have_equals, env_labels-none}
use bscp_go.Config.Update.Precedence.{
  succeeds, env_and_file-some, env_and_file-none, prepared, text_prepared, file_prepared,
}

-- Whether the file of labels is missing, or read and decoded.
abbrev pub file_usable : Outside → Bool
file_usable o = elim o.stat [
  | missing ↦ true
  | stat_failed ↦ false
  | present ↦ o.read_in_config && not (is_none o.unmarshal_file)
]

is_labels : FileLabels → Bool
is_labels (labels_read m) = true
is_labels (labels_failed e) = false

read_labels_file-usable : (o : Outside) → is_labels (read_labels_file o) ≡ file_usable o
unfolding is_labels read_labels_file
read_labels_file-usable o = ground arith

finish_labels-succeeds :
    (o : Outside) (c : ClientConfig)
    → succeeds (finish_labels o c) ≡ (is_empty c.labels_file || file_usable o)
unfolding finish_labels is_labels
finish_labels-succeeds o c = ground (arith, read_labels_file-usable o)

env_and_file-succeeds :
    (o : Outside) (c : ClientConfig)
    → succeeds (env_and_file o c)
      ≡ (all_have_equals o.environ && (is_empty c.labels_file || file_usable o))
unfolding env_and_file update_labels_from_env
env_and_file-succeeds o c = elim (Option-cases (env_labels o.environ [])) [
  | inl e ↦ rw (env_and_file-none o c e) (ground (arith, env_labels-none o.environ []))
  | inr (m, e) ↦ rw (env_and_file-some o c m e) (
      ground (
        arith,
        env_labels-none o.environ [],
        finish_labels-succeeds o (record c { labels = merge_labels (c.labels ∷ m ∷ []) }),
      ))
]

update_labels-succeeds :
    (o : Outside) (c : ClientConfig)
    → succeeds (update_labels o c) ≡ (
        (is_empty c.labels_str || not (is_none (o.unmarshal c.labels_str)))
        && all_have_equals o.environ
        && (is_empty c.labels_file || file_usable o))
unfolding update_labels
update_labels-succeeds o c = elim (Bool-cases (is_empty c.labels_str)) [
  | inl e ↦ rw e (env_and_file-succeeds o c)
  | inr e ↦ elim (Option-cases (o.unmarshal c.labels_str)) [
    | inl f ↦ rw (e, f) refl
    | inr (m, f) ↦
        rw (e, f) (env_and_file-succeeds o (record c { labels = merge_labels (c.labels ∷ m ∷ []) }))
  ]
]

-- `Update` succeeds exactly when the text of labels is empty or JSON, every environment variable has
-- an `=` (it panics else), and no labels file is named, or the file is missing or readable.
pub update-succeeds :
    (o : Outside) (c : ClientConfig)
    → succeeds (update o c) ≡ (
        (is_empty c.labels_str || not (is_none (o.unmarshal c.labels_str)))
        && all_have_equals o.environ
        && (is_empty c.labels_file || file_usable o))
unfolding update update_matches
update-succeeds o c =
    rw (text_prepared o c, file_prepared o c) at (update_labels-succeeds o (prepared o c))
