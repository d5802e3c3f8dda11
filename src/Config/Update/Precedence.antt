-- ===== src/Config/Update/Precedence.antt =====
-- `Update`: where the value of a label comes from.
use bscp_go.Config.Update.Defaults.{is_among, variable_or_ip, lookup-set_default_labels}
use bscp_go.Config.Update.Environment.{last_variable, lookup-env_labels, env_labels-IsMap}
use bscp_go.Config.{ClientConfig, or_new}
use bscp_go.Prelude.{
  ◌≡◌, refl, ap, ◌∙◌, ◌⊎◌, inl, inr, Bool, true, false, Option, none, some, [], ◌∷◌, arith,
  if◌then◌else◌, Bool-cases, Option-cases, is_none, Text, is_empty,
}
use bscp_go.Labels.{Map, lookup, merge_labels, IsMap}
use bscp_go.Labels.Priority.{or_else, or_else-none, merge_labels-lookup, merge_labels-IsMap}
use bscp_go.Config.Update.{
  Outside, UpdateErr, Updated, updated, panicked, update_feed_addrs, update_apps, update_matches,
  env_labels, FileLabels, labels_read, labels_failed, read_labels_file, default_labels,
  update_labels_from_env, finish_labels, env_and_file, update_labels, update,
}

abbrev pub succeeds : Updated → Bool
succeeds (updated err c) = is_none err
succeeds panicked = false

abbrev pub labels_after : Updated → Map Text
labels_after (updated err c) = c.labels
labels_after panicked = []

abbrev labels_of : FileLabels → Map Text
labels_of (labels_read m) = m
labels_of (labels_failed e) = []

pub FileLabels-cases :
    (f : FileLabels)
    → ((m : Map Text) × (f ≡ labels_read m)) ⊎ ((e : UpdateErr) × (f ≡ labels_failed e))
FileLabels-cases (labels_read m) = inl (m, refl)
FileLabels-cases (labels_failed e) = inr (e, refl)

module _ (o : Outside) where
  -- The labels of the file, if one is named.
  abbrev pub file_labels : Text → Map Text
  file_labels path = if is_empty path then [] else labels_of (read_labels_file o)

  -- The labels of the text in JSON, if it is not empty.
  abbrev pub text_labels : Text → Map Text
  text_labels text = if is_empty text then [] else or_new (o.unmarshal text) []

  abbrev pub default_of : Text → Option Text
  default_of j = if is_among j default_labels then variable_or_ip o j else none

  lookup-merge_two :
      (j : Text) (a b : Map Text)
      → IsMap a
      → IsMap b
      → lookup j (merge_labels (a ∷ b ∷ [])) ≡ or_else (lookup j b) (lookup j a)
  lookup-merge_two j a b ha hb = merge_labels-lookup j (a ∷ b ∷ []) (ha, (hb, tt))

  finish_labels-lookup :
      (c : ClientConfig)
      → succeeds (finish_labels o c) ≡ true
      → IsMap c.labels
      → IsMap (file_labels c.labels_file)
      → (j : Text)
      → lookup j (labels_after (finish_labels o c))
        ≡ or_else
            (or_else (lookup j (file_labels c.labels_file)) (lookup j c.labels))
            (default_of j)
  unfolding finish_labels lookup
  finish_labels-lookup c h own file j = elim (Bool-cases (is_empty c.labels_file)) [
    | inl e ↦ rw e (lookup-set_default_labels o default_labels j c.labels)
    | inr e ↦ elim (FileLabels-cases (read_labels_file o)) [
      | inl (m, f) ↦
          let is_map : IsMap m = rw (e, f) at file in
          rw (e, f)
            (lookup-set_default_labels o default_labels j (merge_labels (c.labels ∷ m ∷ []))
              ∙ ap (λ (v : Option Text). or_else v (default_of j))
                  (lookup-merge_two j c.labels m own is_map))
      | inr (err, f) ↦ absurd (cc (rw (e, f) at h))
    ]
  ]

  pub env_and_file-some :
      (c : ClientConfig) (m : Map Text)
      → env_labels o.environ [] ≡ some m
      → env_and_file o c ≡ finish_labels o (record c { labels = merge_labels (c.labels ∷ m ∷ []) })
  unfolding env_and_file update_labels_from_env
  env_and_file-some c m e = rw (e, env_and_file, update_labels_from_env)

  pub env_and_file-none :
      (c : ClientConfig) → env_labels o.environ [] ≡ none → env_and_file o c ≡ panicked
  unfolding env_and_file update_labels_from_env
  env_and_file-none c e = rw (e, env_and_file, update_labels_from_env)

  env_and_file-lookup :
      (c : ClientConfig)
      → succeeds (env_and_file o c) ≡ true
      → IsMap c.labels
      → IsMap (file_labels c.labels_file)
      → (j : Text)
      → lookup j (labels_after (env_and_file o c))
        ≡ or_else
            (or_else
              (lookup j (file_labels c.labels_file))
              (or_else (last_variable j o.environ) (lookup j c.labels)))
            (default_of j)
  unfolding lookup
  env_and_file-lookup c h own file j = elim (Option-cases (env_labels o.environ [])) [
    | inl e ↦ absurd (cc (rw (env_and_file-none c e) at h))
    | inr (m, e) ↦
        let is_map : IsMap m = env_labels-IsMap o.environ [] m e tt in
        let found : lookup j m ≡ last_variable j o.environ =
          lookup-env_labels j o.environ [] m e ∙ or_else-none (last_variable j o.environ) in
        let merged = record c { labels = merge_labels (c.labels ∷ m ∷ []) } in
        rw (env_and_file-some c m e) (
          finish_labels-lookup merged (rw (env_and_file-some c m e) at h)
            (merge_labels-IsMap (c.labels ∷ m ∷ [])) file j
          ∙ rw (lookup-merge_two j c.labels m own is_map, found) refl)
  ]

  update_labels-lookup :
      (c : ClientConfig)
      → succeeds (update_labels o c) ≡ true
      → IsMap c.labels
      → IsMap (text_labels c.labels_str)
      → IsMap (file_labels c.labels_file)
      → (j : Text)
      → lookup j (labels_after (update_labels o c))
        ≡ or_else
            (or_else (lookup j (file_labels c.labels_file)) (
              or_else
                (last_variable j o.environ)
                (or_else (lookup j (text_labels c.labels_str)) (lookup j c.labels))))
            (default_of j)
  unfolding update_labels lookup
  update_labels-lookup c h own text file j = elim (Bool-cases (is_empty c.labels_str)) [
    | inl e ↦ rw e (env_and_file-lookup c (rw (e, succeeds) at h) own file j)
    | inr e ↦ elim (Option-cases (o.unmarshal c.labels_str)) [
      | inl f ↦ absurd (cc (rw (e, f, succeeds) at h))
      | inr (m, f) ↦
          let is_map : IsMap m = rw (e, f) at text in
          let merged = record c { labels = merge_labels (c.labels ∷ m ∷ []) } in
          rw (e, f)
            (env_and_file-lookup merged (rw (e, f, succeeds) at h)
                (merge_labels-IsMap (c.labels ∷ m ∷ [])) file j
              ∙ rw (lookup-merge_two j c.labels m own is_map) refl)
    ]
  ]

  abbrev pub prepared : ClientConfig → ClientConfig
  prepared c = update_matches (update_apps (update_feed_addrs c))

  pub labels_prepared : (c : ClientConfig) → (prepared c).labels ≡ c.labels
  unfolding update_matches update_apps update_feed_addrs
  labels_prepared c = ground arith

  pub text_prepared : (c : ClientConfig) → (prepared c).labels_str ≡ c.labels_str
  unfolding update_matches update_apps update_feed_addrs
  text_prepared c = ground arith

  pub file_prepared : (c : ClientConfig) → (prepared c).labels_file ≡ c.labels_file
  unfolding update_matches update_apps update_feed_addrs
  file_prepared c = ground arith

  -- If `Update` succeeds, a label has the value of the labels file; else of the last environment
  -- variable that is named `labels_` and the label, up to the value's first `=`, where the
  -- variables `labels_file` and `labels_` are of no label; else of the text in JSON; else of the
  -- configuration. A default label that none of them sets has the value of the environment variable
  -- of its own name if that is not empty, and `ip` else the client's address. The labels of the
  -- configuration, the text and the file are maps, with no key twice.
  pub update-labels :
      (c : ClientConfig)
      → succeeds (update o c) ≡ true
      → IsMap c.labels
      → IsMap (text_labels c.labels_str)
      → IsMap (file_labels c.labels_file)
      → (j : Text)
      → lookup j (labels_after (update o c))
        ≡ or_else
            (or_else (lookup j (file_labels c.labels_file)) (
              or_else
                (last_variable j o.environ)
                (or_else (lookup j (text_labels c.labels_str)) (lookup j c.labels))))
            (default_of j)
  unfolding update update_matches
  update-labels c h own text file j =
      rw (labels_prepared c, text_prepared c, file_prepared c) at
        (update_labels-lookup (prepared c) h (rw (labels_prepared c) own)
          (rw (text_prepared c) text) (rw (file_prepared c) file) j)
