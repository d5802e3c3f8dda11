-- ===== src/Client/Requests/Sent.antt =====
-- The instance that the requests name: its labels and its uid.
use bscp_go.Prelude.{
  ◌≡◌, refl, sym, ◌∙◌, ◌≢◌, false, Option, List, [], ◌∷◌, arith, if◌then◌else◌, Text, is_empty,
}
use bscp_go.Labels.{lookup, merge_labels, IsMap}
use bscp_go.Labels.Priority.{or_else, merge_labels-lookup}
use bscp_go.Options.{Options, AppOptions, no_app_options, AppSetter, apply_all}
use bscp_go.Watch.Session.{app_options}
use bscp_go.Client.Requests.{Request, get_file_request, pull_files_request, pull_kvs_request}

abbrev pub options_for : List AppSetter → AppOptions
options_for sets = apply_all sets no_app_options

-- The first text that is not empty.
abbrev pub first_of : List Text → Text
first_of [] = []
first_of (t ∷ ts) = if is_empty t then first_of ts else t

-- A label of an app, and else of the client.
abbrev pub label_for : Options → List AppSetter → Text → Option Text
label_for opts sets j = or_else (lookup j (options_for sets).labels) (lookup j opts.labels)

-- The instance that a request names.
abbrev pub Names : Options → Text → List AppSetter → List Text → Request → Type 0
Names opts app sets uids req =
    (req.app ≡ app)
    × (req.uid ≡ first_of uids)
    × ((j : Text) → lookup j req.labels ≡ label_for opts sets j)

merged :
    (opts : Options) (sets : List AppSetter) (j : Text)
    → IsMap opts.labels
    → IsMap (options_for sets).labels
    → lookup j (merge_labels (opts.labels ∷ (options_for sets).labels ∷ [])) ≡ label_for opts sets j
merged opts sets j d e =
    merge_labels-lookup j (opts.labels ∷ (options_for sets).labels ∷ []) (d, (e, tt))

-- `GetFile` and `PullFiles` name the same instance: with each label of the app's options, and else
-- of the client, and with the first uid that is not empty of the app's, the client's and the
-- fingerprint. `PullKvs` names the same labels, and of the uids the app's or the client's. Both
-- labels are maps, with no key twice.
pub requests-Names :
    (opts : Options) (app file_path : Text) (match_ : List Text) (sets : List AppSetter)
    → IsMap opts.labels
    → IsMap (options_for sets).labels
    → let own = (options_for sets).uid in
      Names opts app sets
        (own ∷ opts.uid ∷ opts.fingerprint ∷ [])
        (get_file_request opts app file_path sets)
      × Names opts app sets
          (own ∷ opts.uid ∷ opts.fingerprint ∷ [])
          (pull_files_request opts app sets)
      × Names opts app sets (own ∷ opts.uid ∷ []) (pull_kvs_request opts app match_ sets)
unfolding get_file_request pull_files_request pull_kvs_request
requests-Names opts app file_path match_ sets d e =
    let labels = λ (j : Text). merged opts sets j d e in
    ((refl, ground arith, labels), (refl, ground arith, labels), (refl, ground arith, labels))

is_empty-false : (t : Text) → t ≢ [] → is_empty t ≡ false
is_empty-false [] h = absurd (h refl)
is_empty-false (c ∷ t) h = refl

subscriber_uid :
    (sets : List AppSetter) (o : Options)
    → (options_for sets).uid ≡ []
    → (app_options sets o).uid ≡ o.fingerprint
unfolding app_options
subscriber_uid sets o own = ground arith

request_uid :
    (app : Text) (sets : List AppSetter) (o : Options)
    → (options_for sets).uid ≡ []
    → o.uid ≢ []
    → (pull_files_request o app sets).uid ≡ o.uid
unfolding pull_files_request
request_uid app sets o own some_uid = ground (arith, is_empty-false o.uid some_uid)

-- The uid of a subscriber and of the files that are pulled differ for an app without a uid of its own,
-- if the client was given a uid other than the fingerprint: the subscriber has the fingerprint.
pub subscribe-pull_files-uid :
    (o : Options) (app : Text) (sets : List AppSetter)
    → (options_for sets).uid ≡ []
    → o.uid ≢ []
    → o.uid ≢ o.fingerprint
    → (app_options sets o).uid ≢ (pull_files_request o app sets).uid
subscribe-pull_files-uid o app sets own some_uid other h =
    other (sym (request_uid app sets o own some_uid) ∙ sym h ∙ subscriber_uid sets o own)
