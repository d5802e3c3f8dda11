-- ===== src/Client/Requests.antt =====
-- client/client.go: `GetFile`, `PullFiles`, `PullKvs` and `ListApps`: the requests that they send,
-- what they make of the answer, and what a failed pull reports.
pub mod Sent
pub mod Reported
mod Tests
use bscp_go.Prelude.{
  ℕ, ◌⊎◌, inl, inr, List, [], ◌∷◌, ◌++◌, if◌then◌else◌, length, Text, codes, is_empty,
}
use bscp_go.Labels.{Map, merge_labels}
use bscp_go.Options.{Options, AppOptions, no_app_options, AppSetter, apply_all}
use bscp_go.Watch.Subscribers.{ConfigItem, AppMeta, total_size}
use bscp_go.Release.Steps.{truncate_string}

-- A request to the server; a field that a request has not is empty.
pub record Request : Type 0 where
  pub biz_id : ℕ
  pub app : Text
  pub labels : Map Text
  pub uid : Text
  pub token : Text
  pub match_ : List Text
  pub key : Text
  pub file_path : Text

-- The uid of an app's options, and else the client's.
pub own_uid : AppOptions → Options → Text
own_uid option opts = if is_empty option.uid then opts.uid else option.uid

-- The uid with the fingerprint in the place of an empty one.
pub uid_or_fingerprint : AppOptions → Options → Text
unfolding own_uid
uid_or_fingerprint option opts =
    if is_empty (own_uid option opts) then opts.fingerprint else own_uid option opts

-- The request of `GetFile`.
pub get_file_request : Options → Text → Text → List AppSetter → Request
unfolding uid_or_fingerprint
get_file_request opts app file_path sets =
    let option = apply_all sets no_app_options in
    record {
      biz_id = opts.biz_id;
      app = app;
      labels = merge_labels (opts.labels ∷ option.labels ∷ []);
      uid = uid_or_fingerprint option opts;
      token = opts.token;
      match_ = [];
      key = [];
      file_path = file_path;
    }

abbrev first_match : List Text → Text
first_match [] = []
first_match (m ∷ ms) = m

-- The request of `PullFiles`, whose key is for old servers.
pub pull_files_request : Options → Text → List AppSetter → Request
unfolding uid_or_fingerprint
pull_files_request opts app sets =
    let option = apply_all sets no_app_options in
    record {
      biz_id = opts.biz_id;
      app = app;
      labels = merge_labels (opts.labels ∷ option.labels ∷ []);
      uid = uid_or_fingerprint option opts;
      token = opts.token;
      match_ = option.match_;
      key = first_match option.match_;
      file_path = [];
    }

-- The request of `PullKvs`.
pub pull_kvs_request : Options → Text → List Text → List AppSetter → Request
unfolding own_uid
pull_kvs_request opts app match_ sets =
    let option = apply_all sets no_app_options in
    record {
      biz_id = opts.biz_id;
      app = app;
      labels = merge_labels (opts.labels ∷ option.labels ∷ []);
      uid = own_uid option opts;
      token = [];
      match_ = match_;
      key = [];
      file_path = [];
    }

-- The request of `ListApps`.
pub list_apps_request : Options → List Text → Request
list_apps_request opts match_ = record {
  biz_id = opts.biz_id;
  app = [];
  labels = [];
  uid = [];
  token = [];
  match_ = match_;
  key = [];
  file_path = [];
}

pub data StatusCode : Type 0 where
  permission_denied unauthenticated failed_precondition other_status : StatusCode

-- A detail of a status: the two numbers of `pbbase.ErrDetails`, or another message.
pub data Detail : Type 0 where
  err_details : ℕ → ℕ → Detail
  other_detail : Detail

-- An error of a call: a status with its code and details, or an error that is none; with its text.
pub data CallErr : Type 0 where
  status_err : StatusCode → List Detail → Text → CallErr
  plain_err : Text → CallErr

pub data Reason : Type 0 where
  app_meta_failed token_failed : Reason
  primary_error : ℕ → Reason

pub data Specific : Type 0 where
  no_download_permission token_permission_failed : Specific
  secondary_error : ℕ → Specific

-- What a failed pull reports.
pub record Failure : Type 0 where
  pub app : Text
  pub labels : Map Text
  pub uid : Text
  pub match_ : List Text
  pub reason : Reason
  pub specific : Specific
  pub detail : Text

-- The loop over the details: the last that fits counts.
pub read_details : List Detail → Reason × Specific → Reason × Specific
read_details [] r = r
read_details (err_details p s ∷ ds) r = read_details ds (primary_error p, secondary_error s)
read_details (other_detail ∷ ds) r = read_details ds r

-- The reasons that the `defer` of `PullFiles` finds.
pub reasons : CallErr → Reason × Specific
unfolding read_details
reasons (plain_err text) = (app_meta_failed, no_download_permission)
reasons (status_err permission_denied ds text) = (token_failed, token_permission_failed)
reasons (status_err unauthenticated ds text) = (token_failed, token_permission_failed)
reasons (status_err failed_precondition ds text) =
    read_details ds (app_meta_failed, no_download_permission)
reasons (status_err other_status ds text) = (app_meta_failed, no_download_permission)

-- The text that is reported, before it is cut.
pub failed_detail : CallErr → Text
failed_detail (plain_err text) = codes "pull app file meta failed, err: " ++ text
failed_detail (status_err code ds text) = text

-- The report of the `defer`, cut by `sendClientMessaging`.
pub failure_of : Request → CallErr → Failure
unfolding reasons failed_detail
failure_of req e =
    let (reason, specific) = reasons e in
    record {
      app = req.app;
      labels = req.labels;
      uid = req.uid;
      match_ = req.match_;
      reason = reason;
      specific = specific;
      detail = truncate_string (failed_detail e) 1024;
    }

-- The answer of `PullAppFileMeta`.
pub record FileMetas : Type 0 where
  pub release_id : ℕ
  pub release_name : Text
  pub file_metas : List ConfigItem

-- How `PullFiles` ends; a pulled release comes with its files and what is reported of it later.
pub data Pulled : Type 0 where
  pulled : FileMetas → AppMeta → Pulled
  pull_failed : CallErr → Pulled

-- `PullFiles`, with the answer to its request: the result, and the failures that are reported.
pub pull_files : Options → Text → List AppSetter → FileMetas ⊎ CallErr → Pulled × List Failure
pull_files opts app sets (inr e) =
    (pull_failed e, failure_of (pull_files_request opts app sets) e ∷ [])
pull_files opts app sets (inl resp) =
    let req = pull_files_request opts app sets in
    (
      pulled resp (record {
        app = app;
        uid = req.uid;
        labels = req.labels;
        match_ = req.match_;
        current_release_id = 0;
        target_release_id = resp.release_id;
        total_file_size = total_size resp.file_metas 0;
        total_file_num = length resp.file_metas;
      }),
      [],
    )
