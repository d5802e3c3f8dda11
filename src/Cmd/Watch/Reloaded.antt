-- ===== src/Cmd/Watch/Reloaded.antt =====
-- The labels of `Watch` when its labels file changes.
use bscp_go.Prelude.{
  ◌≡◌, refl, sym, ◌∙◌, inl, inr, true, false, ◌&&◌, none, some, List, [], ◌∷◌, if◌then◌else◌,
  Bool-cases, Text, codes,
}
use bscp_go.Labels.{Map, lookup, put, IsMap, deep_equal}
use bscp_go.Labels.Equal.{Agree, deep_equal-Agree}
use bscp_go.Labels.Priority.{lookup-put, merge_labels-lookup, put-IsMap}
use bscp_go.Config.{ClientConfig}
use bscp_go.Config.Update.{Outside, update}
use bscp_go.Config.Update.Precedence.{
  succeeds, labels_after, file_labels, text_labels, update-labels,
}
use bscp_go.Config.Update.Kept.{update-LabelsAreMap}
use bscp_go.Cmd.Watch.{
  ReadFile, read_failed, unmarshal_failed, content_read, FsEvent, Message, reload_failed, reloaded,
  on_read, on_event, also, watch_labels_file, client_labels, reload_labels,
}

-- The labels that the last message has, and the given ones if none has labels.
abbrev pub last_sent : List Message → Map Text → Map Text
last_sent [] m = m
last_sent (reload_failed ∷ ms) m = last_sent ms m
last_sent (reloaded new ∷ ms) m = last_sent ms new

-- The content behind an event, if it was read.
abbrev read_content : ReadFile → Map Text → Map Text
read_content read_failed m = m
read_content unmarshal_failed m = m
read_content (content_read new) m = new

-- The content that was read last, and the given one if none was.
abbrev pub last_content : List FsEvent → Map Text → Map Text
last_content [] m = m
last_content (e ∷ es) m =
    last_content es (if e.is_write && e.of_file then read_content e.reads m else m)

-- Every content that is read is a map.
abbrev pub ReadsMaps : List FsEvent → Type 0
ReadsMaps [] = Unit {0}
ReadsMaps (e ∷ es) = IsMap (read_content e.reads []) × ReadsMaps es

on_read-Agree :
    (r : ReadFile) (old content : Map Text)
    → IsMap (read_content r [])
    → Agree old content
    → Agree (on_read r old).0 (read_content r content)
unfolding on_read
on_read-Agree read_failed old content d h = h
on_read-Agree unmarshal_failed old content d h = h
on_read-Agree (content_read new) old content d h = elim (Bool-cases (deep_equal new (some old))) [
  | inl e ↦ rw e (λ j. sym (deep_equal-Agree new old d e j))
  | inr e ↦ rw e (λ j. refl)
]

on_event-Agree :
    (e : FsEvent) (old content : Map Text)
    → IsMap (read_content e.reads [])
    → Agree old content
    → Agree
        (on_event e old).0
        (if e.is_write && e.of_file then read_content e.reads content else content)
unfolding on_event
on_event-Agree e old content d h = elim (Bool-cases (e.is_write && e.of_file)) [
  | inl f ↦ simp f (on_read-Agree e.reads old content d h)
  | inr f ↦ simp f h
]

on_read-sent :
    (r : ReadFile) (old : Map Text) (ms : List Message)
    → last_sent (also (on_read r old).1 ms) old ≡ last_sent ms (on_read r old).0
unfolding on_read
on_read-sent read_failed old ms = refl
on_read-sent unmarshal_failed old ms = refl
on_read-sent (content_read new) old ms = elim (Bool-cases (deep_equal new (some old))) [
  | inl e ↦ rw e refl
  | inr e ↦ rw e refl
]

on_event-sent :
    (e : FsEvent) (old : Map Text) (ms : List Message)
    → last_sent (also (on_event e old).1 ms) old ≡ last_sent ms (on_event e old).0
unfolding on_event
on_event-sent e old ms = elim (Bool-cases (e.is_write && e.of_file)) [
  | inl f ↦ simp f (on_read-sent e.reads old ms)
  | inr f ↦ simp f refl
]

-- When the labels that were sent have at every key the value of the file's content, they do so
-- behind any events, with the content that was read last at a write of the file itself, which are
-- the events that the watch lets through: a content that is not sent differs at no key from the one
-- before. Other events, such as that the file is created or renamed, are not looked at. Every
-- content that is read is a map, with no key twice.
pub watch_labels_file-Agree :
    (es : List FsEvent) (sent content : Map Text)
    → ReadsMaps es
    → Agree sent content
    → Agree (last_sent (watch_labels_file es sent).1 sent) (last_content es content)
unfolding watch_labels_file
watch_labels_file-Agree [] sent content r h = h
watch_labels_file-Agree (e ∷ es) sent content r h =
    let new = (on_event e sent).0 in
    rw (on_event-sent e sent (watch_labels_file es new).1)
      (watch_labels_file-Agree es new _ r.1 (on_event-Agree e sent content r.0 h))

-- Outside of a sidecar, behind an `Update` that succeeded: a label that the file had then stays,
-- with its value, behind a reload of a file that has it no more; so it does not leave the labels of
-- the watch. The labels of the configuration, the text and both contents of the file are maps, with
-- no key twice.
pub reload_labels-stale :
    (o : Outside) (c : ClientConfig) (hostname : Text) (new : Map Text) (j v : Text)
    → succeeds (update o c) ≡ true
    → IsMap c.labels
    → IsMap (text_labels o c.labels_str)
    → IsMap (file_labels o c.labels_file)
    → lookup j (file_labels o c.labels_file) ≡ some v
    → IsMap new
    → lookup j new ≡ none
    → lookup j (reload_labels false hostname (labels_after (update o c)) new) ≡ some v
unfolding reload_labels
reload_labels-stale o c hostname new j v ok own text file has d gone =
    let labels = labels_after (update o c) in
    merge_labels-lookup j (labels ∷ new ∷ []) (update-LabelsAreMap o c own, (d, tt))
    ∙ simp (gone, update-labels o c ok own text file j, has) refl

-- With a labels file, a sidecar makes its client with labels without the pod's name of the host, while a
-- reload has it: the labels of a reload of the same file differ in it from the client's.
pub client_labels-pod_name :
    (hostname : Text) (file labels : Map Text)
    → IsMap labels
    → IsMap file
    → lookup (codes "pod_name") file ≡ none
    → (lookup (codes "pod_name") (client_labels true hostname (some file) labels)
        ≡ lookup (codes "pod_name") labels)
      × (lookup (codes "pod_name") (reload_labels true hostname labels file) ≡ some hostname)
unfolding client_labels reload_labels
client_labels-pod_name hostname file labels d e gone =
    let put_in = put (codes "pod_name") hostname labels in
    (
      merge_labels-lookup (codes "pod_name") (labels ∷ file ∷ []) (d, (e, tt)) ∙ simp gone refl,
      merge_labels-lookup (codes "pod_name") (put_in ∷ file ∷ [])
            (put-IsMap (codes "pod_name") hostname labels d, (e, tt))
          ∙ simp (gone, lookup-put (codes "pod_name") (codes "pod_name") hostname labels) refl,
    )
