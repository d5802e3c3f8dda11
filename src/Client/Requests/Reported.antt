-- ===== src/Client/Requests/Reported.antt =====
-- What a failed `PullFiles` reports.
use bscp_go.Prelude.{
  ℕ, ◌+◌, ◌≤◌, ◌≡◌, refl, inr, List, [], ◌∷◌, ◌++◌, arith, length, take, length-append, length-take,
  Text,
}
use bscp_go.Options.{Options, AppSetter}
use bscp_go.Release.Steps.{truncate_string}
use bscp_go.Client.Requests.{
  Request, pull_files_request, failed_precondition, Detail, err_details, other_detail, CallErr,
  status_err, Reason, app_meta_failed, primary_error, Specific, no_download_permission,
  secondary_error, Failure, read_details, reasons, failed_detail, failure_of, pull_failed,
  pull_files,
}

-- No detail has the server's two numbers.
abbrev pub NoDetails : List Detail → Type 0
NoDetails [] = Unit {0}
NoDetails (err_details p s ∷ ds) = ⊥
NoDetails (other_detail ∷ ds) = NoDetails ds

read_details-none :
    (ds : List Detail) (r : Reason × Specific) → NoDetails ds → read_details ds r ≡ r
unfolding read_details
read_details-none [] r h = refl
read_details-none (err_details p s ∷ ds) r h = absurd h
read_details-none (other_detail ∷ ds) r h = read_details-none ds r h

read_details-last :
    (before after : List Detail) (p s : ℕ) (r : Reason × Specific)
    → NoDetails after
    → read_details (before ++ err_details p s ∷ after) r ≡ (primary_error p, secondary_error s)
unfolding read_details
read_details-last [] after p s r h = read_details-none after (primary_error p, secondary_error s) h
read_details-last (err_details p' s' ∷ ds) after p s r h =
    read_details-last ds after p s (primary_error p', secondary_error s') h
read_details-last (other_detail ∷ ds) after p s r h = read_details-last ds after p s r h

truncate_string-length : (s : Text) (n : ℕ) → length (truncate_string s n) ≤ n + 3
unfolding truncate_string
truncate_string-length s n =
    ground (arith, length-append (take n s) (46 ∷ 46 ∷ 46 ∷ []), length-take n s)

-- A failure that is reported for a request, with the given reasons and a text of bounded length.
abbrev pub Reports : Request → Reason → Specific → Failure → Type 0
Reports req reason specific f =
    (f.app ≡ req.app)
    × (f.uid ≡ req.uid)
    × (f.labels ≡ req.labels)
    × (f.reason ≡ reason)
    × (f.specific ≡ specific)
    × (length f.detail ≤ 1027)

failure_of-Reports :
    (req : Request) (e : CallErr) → Reports req (reasons e).0 (reasons e).1 (failure_of req e)
unfolding failure_of
failure_of-Reports req e =
    (refl, refl, refl, refl, refl, omega (arith, truncate_string-length (failed_detail e) 1024))

-- A pull that the server refuses for a failed precondition returns the server's error and reports one
-- failure: of the instance that the request named, with the numbers of the last detail that has them,
-- and with a text of at most 1027 characters.
pub pull_files-last_details :
    (opts : Options) (app : Text) (sets : List AppSetter) (before after : List Detail) (p s : ℕ)
    (text : Text)
    → NoDetails after
    → let e = status_err failed_precondition (before ++ err_details p s ∷ after) text in
      (f : Failure) × (pull_files opts app sets (inr e) ≡ (pull_failed e, f ∷ []))
      × Reports (pull_files_request opts app sets) (primary_error p) (secondary_error s) f
unfolding pull_files reasons
pull_files-last_details opts app sets before after p s text h =
    let req = pull_files_request opts app sets in
    let e = status_err failed_precondition (before ++ err_details p s ∷ after) text in
    (
      failure_of req e,
      refl,
      rw (read_details-last before after p s (app_meta_failed, no_download_permission) h) at
          (failure_of-Reports req e),
    )
