-- ===== src/Client/Requests/Tests.antt =====
-- The requests for an app with a label of its own, and a pull that is refused.
use bscp_go.Prelude.{◌≡◌, inr, List, [], ◌∷◌, codes}
use bscp_go.Options.{Options, no_options, AppSetter, with_app_labels, apply_all}
use bscp_go.Client.Requests.{
  get_file_request, pull_files_request, pull_kvs_request, failed_precondition, err_details,
  other_detail, CallErr, status_err, primary_error, secondary_error, Failure, pull_failed,
  pull_files,
}
use bscp_go.Client.Requests.Sent.{Names, requests-Names}
use bscp_go.Client.Requests.Reported.{Reports, pull_files-last_details}

abbrev opts : Options
opts = record no_options {
  labels = (codes "env", codes "stag") ∷ [];
  fingerprint = codes "fp";
  uid = codes "u";
}

abbrev sets : List AppSetter
sets = with_app_labels ((codes "env", codes "prod") ∷ []) ∷ []

requests-Names_example :
    Names opts
      (codes "app")
      sets
      ([] ∷ codes "u" ∷ codes "fp" ∷ [])
      (get_file_request opts (codes "app") (codes "/etc/a.conf") sets)
    × Names opts
        (codes "app")
        sets
        ([] ∷ codes "u" ∷ codes "fp" ∷ [])
        (pull_files_request opts (codes "app") sets)
    × Names opts
        (codes "app")
        sets
        ([] ∷ codes "u" ∷ [])
        (pull_kvs_request opts (codes "app") [] sets)
unfolding apply_all with_app_labels
requests-Names_example =
    requests-Names opts (codes "app") (codes "/etc/a.conf") [] sets (tt, tt) (tt, tt)

-- The server's two details with numbers, and another behind them.
abbrev refused : CallErr
refused =
    status_err failed_precondition (err_details 1 2 ∷ err_details 3 4 ∷ other_detail ∷ [])
      (codes "no release matches")

pull_files-last_details_example :
    (f : Failure) × (pull_files opts (codes "app") sets (inr refused)
      ≡ (pull_failed refused, f ∷ []))
    × Reports (pull_files_request opts (codes "app") sets) (primary_error 3) (secondary_error 4) f
pull_files-last_details_example =
    pull_files-last_details opts (codes "app") sets (err_details 1 2 ∷ []) (other_detail ∷ []) 3 4
      (codes "no release matches") tt
