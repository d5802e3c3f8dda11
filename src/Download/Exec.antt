-- ===== src/Download/Exec.antt =====
-- internal/downloader/http.go: `download`, `do` and `Download` of the HTTP downloader; and
-- internal/downloader/downloader.go: the choice between it and the asynchronous downloader.
pub mod Content
pub mod Complete
use bscp_go.Retry.{RetryPolicy}
use bscp_go.Prelude.{
  ℕ, ◌*◌, Bool, not, Option, none, some, List, [], ◌∷◌, ◌++◌, ltb, leb, ◌==◌, if◌then◌else◌, length,
}
use bscp_go.Download.Body.{Target, to_bytes, to_file}
use bscp_go.Download.Http.{
  Ask, download_directly, Retried, succeeded, gave_up, waiting, crash, with_retry, Headers, ranges,
  no_ranges, head_failed, is_provider_support_range_download,
}
use bscp_go.Download.Http.Ranged.{
  Ended, running, panicked, hit_error, complete, download_with_range,
}

pub data Failure : Type 0 where
  retry_download_failed validate_download_failed download_chunk_failed : Failure
  token_permission_failed no_download_permission file_path_not_found open_file_failed : Failure
  from_upstream : ℕ → ℕ → Failure
  both_failed : Failure → Failure → Failure

-- What a download comes to. `stuck`: it has not ended, or it panics.
pub data Outcome : Type 0 where
  ok : Target → Outcome
  err : Failure → Target → Outcome
  stuck : Outcome

-- What one repository meets: its answer to HEAD, the attempts of the ranged download in the order
-- they come, and the attempts of a direct download.
pub record Repo : Type 0 where
  pub head : Option Headers
  pub schedule : List (ℕ × Ask)
  pub asks : List Ask

-- The error behind the loop of `do`: `none` is `errs[1]` or `errs[0]` out of range.
pub all_failed : List Failure → Target → Outcome
all_failed [] t = stuck
all_failed (e ∷ []) t = err e t
all_failed (e ∷ e' ∷ _) t = err (both_failed e e') t

-- The upstream's answer: the repositories of `Urls` and the one of `Url`, or an error's code and
-- details.
pub data UrlReply : Type 0 where
  urls : List Repo → Repo → UrlReply
  permission_denied unauthenticated other_error : UrlReply
  failed_precondition : List (Option (ℕ × ℕ)) → UrlReply

-- The first detail that is an `ErrDetails`.
pub detailed : List (Option (ℕ × ℕ)) → Failure
detailed [] = no_download_permission
detailed (none ∷ ds) = detailed ds
detailed (some (primary, secondary) ∷ ds) = from_upstream primary secondary

-- The arguments of `Download`: `opened` tells whether the target file can be opened, which truncates it.
pub data Request : Type 0 where
  into_file : (path_is_empty opened : Bool) → Request
  into_bytes : List ℕ → Request

module _ (policy : RetryPolicy) (balance : ℕ) where
  pub retried : Retried policy → Outcome
  retried (succeeded t) = ok t
  retried (gave_up errs t) = err retry_download_failed t
  retried waiting = stuck
  retried crash = stuck

  pub directly : ℕ → Target → List Ask → Outcome
  unfolding retried
  directly file_size target asks =
      retried (with_retry policy (download_directly file_size) target asks)

  pub ended : Ended × Target → Outcome
  ended (complete, t) = ok t
  ended (hit_error, t) = err download_chunk_failed t
  ended (running, t) = stuck
  ended (panicked, t) = stuck

  -- `download`
  pub download : ℕ → Target → Repo → Outcome
  unfolding directly ended
  download file_size target repo =
      if leb file_size balance
      then directly file_size target repo.asks
      else elim (is_provider_support_range_download repo.head) [
        | ranges size ↦
            if size == file_size
            then ended (download_with_range policy file_size balance target repo.schedule)
            else err validate_download_failed target
        | no_ranges ↦ directly file_size target repo.asks
        | head_failed ↦ directly file_size target repo.asks
      ]

  pub try_all : ℕ → Target → List Failure → List Repo → Outcome
  unfolding download all_failed
  try_all file_size target errs [] = all_failed errs target
  try_all file_size target errs (repo ∷ repos) =
      let again = λ (e : Failure) (t : Target). try_all file_size t (errs ++ (e ∷ [])) repos in
      elim (download file_size target repo) [ ok t ↦ ok t | err e t ↦ again e t | stuck ↦ stuck ]

  -- `do`
  pub do_exec : ℕ → Target → UrlReply → Outcome
  unfolding try_all detailed
  do_exec file_size target (urls [] url) = try_all file_size target [] (url ∷ [])
  do_exec file_size target (urls (u ∷ us) url) = try_all file_size target [] (u ∷ us)
  do_exec file_size target permission_denied = err token_permission_failed target
  do_exec file_size target unauthenticated = err token_permission_failed target
  do_exec file_size target other_error = err no_download_permission target
  do_exec file_size target (failed_precondition details) = err (detailed details) target

  -- `Download`
  pub http_download : ℕ → Request → UrlReply → Outcome
  unfolding do_exec
  http_download file_size (into_file path_is_empty opened) reply =
      let empty : Target = to_file (λ i. none) in
      if path_is_empty
      then err file_path_not_found empty
      else if opened
      then do_exec file_size empty reply
      else err open_file_failed empty
  http_download file_size (into_bytes bytes) reply =
      if length bytes == file_size
      then do_exec file_size (to_bytes bytes) reply
      else err validate_download_failed (to_bytes bytes)

  -- `Download` of downloader.go: the asynchronous downloader comes to `async`, its file or `none`.
  pub download_any : Bool → ℕ → Request → Option Target → UrlReply → Outcome
  unfolding http_download
  download_any enable_async_download file_size request async reply =
      let over_http = http_download file_size request reply in
      if not enable_async_download then over_http else elim request [
        | into_bytes bytes ↦ over_http
        | into_file path_is_empty opened ↦
            if ltb file_size (2 * 1024 * 1024)
            then over_http
            else elim async [ some t ↦ ok t | none ↦ over_http ]
      ]
