-- ===== src/Download/Http.antt =====
-- internal/downloader/http.go: a request, its retries, and the choice between a direct and a ranged
-- download. The file is one shared value, which every attempt reads and returns.
pub mod Retries
pub mod Ranged
use bscp_go.Retry.{RetryPolicy}
use bscp_go.Prelude.{
  ℕ, ◌+◌, ◌-◌, ◌^◌, String, Bool, not, ◌&&◌, Option, none, some, List, [], ◌∷◌, ◌++◌, ltb, leb,
  ◌==◌, if◌then◌else◌, str_eq,
}
use bscp_go.Download.Body.{
  Chunk, Target, WriteErr, WriteResult, finished, failed, pending, panics, write,
}
use bscp_go.Download.Ranges.{u64, Range, whole, range_header}

-- What one attempt meets: whether the semaphore is acquired, whether the request can be made, and
-- what the provider answers.
pub data Reply : Type 0 where
  no_request no_response : Reply
  response : ℕ → List Chunk → Reply

pub record Try : Type 0 where
  pub acquired : Bool
  pub reply : Reply

-- What an attempt meets depends on the header of its request.
abbrev pub Ask : Type 0
Ask = Range → Try

pub data HttpErr : Type 0 where
  bad_range not_acquired new_request_failed do_request_failed : HttpErr
  bad_code : ℕ → HttpErr
  write_error : WriteErr → HttpErr

-- `hung`: the attempt has not ended. `crashed`: it panics.
pub data Attempt : Type 0 where
  got : Target → Attempt
  missed : HttpErr → Target → Attempt
  hung crashed : Attempt

-- `doRequest`
pub data Response : Type 0 where
  body : List Chunk → Response
  refused : HttpErr → Response

unfoldable pub do_request : Reply → Response
do_request no_request = refused new_request_failed
do_request no_response = refused do_request_failed
do_request (response code chunks) =
    if not (code == 200) && not (code == 206) then refused (bad_code code) else body chunks

unfoldable pub written : WriteResult → Attempt
written (finished t) = got t
written (failed e t) = missed (write_error e) t
written pending = hung
written panics = crashed

-- The request, and `write` with the body.
unfoldable pub fetch : ℕ → ℕ → Target → Response → Attempt
unfolding written
fetch expect start target (refused e) = missed e target
fetch expect start target (body chunks) = written (write target expect start 0 chunks)

-- `downloadDirectly`
unfoldable pub download_directly : ℕ → Target → Ask → Attempt
unfolding fetch do_request
download_directly file_size target ask =
    if (ask whole).acquired
    then fetch file_size 0 target (do_request (ask whole).reply)
    else missed not_acquired target

-- `downloadOneRangedPart`
unfoldable pub download_one_ranged_part : ℕ × ℕ → Target → Ask → Attempt
unfolding fetch do_request
download_one_ranged_part (start, end_) target ask =
    if ltb end_ start
    then missed bad_range target
    else if (ask (range_header start end_)).acquired
    then fetch (u64 (end_ + 2 ^ 64 - start + 1)) start target
        (do_request (ask (range_header start end_)).reply)
    else missed not_acquired target

module _ (policy : RetryPolicy) where
  -- How a loop of retries ends: with the target, or with all errors. `waiting`: it has not ended.
  pub data Retried : Type 0 where
    succeeded : Target → Retried
    gave_up : List HttpErr → Target → Retried
    waiting crash : Retried

  -- The loop of `downloadDirectlyWithRetry` and of `downloadOneRangedPartWithRetry`, with what each
  -- attempt meets.
  unfoldable pub retrying :
      (Target → Ask → Attempt) → policy.Policy → List HttpErr → Target → List Ask → Retried
  retrying attempt p errs target [] =
      if leb 5 (policy.retry_count p) then gave_up errs target else waiting
  retrying attempt p errs target (ask ∷ asks) =
      let again = λ (e : HttpErr) (target' : Target).
        retrying attempt (policy.sleep p) (errs ++ (e ∷ [])) target' asks in
      if leb 5 (policy.retry_count p) then gave_up errs target else elim (attempt target ask) [
        | got target' ↦ succeeded target'
        | missed e target' ↦ again e target'
        | hung ↦ waiting
        | crashed ↦ crash
      ]

  abbrev pub with_retry : (Target → Ask → Attempt) → Target → List Ask → Retried
  with_retry attempt = retrying attempt policy.new_policy []

-- `isProviderSupportRangeDownload`: what the headers of the provider's answer to HEAD say.
-- `ParseUint` of the length is its value, or `none`.
pub record Headers : Type 0 where
  pub code : ℕ
  pub accept_ranges : Option (List String)
  pub content_length : Option (List (Option ℕ))

pub data Support : Type 0 where
  ranges : ℕ → Support
  no_ranges head_failed : Support

pub parse_length : Option (List (Option ℕ)) → Support
parse_length none = head_failed
parse_length (some []) = head_failed
parse_length (some (none ∷ _)) = head_failed
parse_length (some (some size ∷ _)) = ranges size

unfoldable pub is_provider_support_range_download : Option Headers → Support
unfolding parse_length
is_provider_support_range_download none = head_failed
is_provider_support_range_download (some h) =
    if not (h.code == 200) then head_failed else elim h.accept_ranges [
      | none ↦ no_ranges
      | some [] ↦ no_ranges
      | some (mode ∷ _) ↦
          if not (str_eq mode "bytes") then no_ranges else parse_length h.content_length
    ]

-- `setupMaxHttpDownloadGoroutines`: whether the variable is set, and the number that
-- `ParseInt` reads from it, and `negative n` for -n.
pub data Weight : Type 0 where
  unset unparsed : Weight
  negative : ℕ → Weight
  weight : ℕ → Weight

unfoldable pub setup_max_http_download_goroutines : Weight → ℕ
setup_max_http_download_goroutines unset = 10
setup_max_http_download_goroutines unparsed = 10
setup_max_http_download_goroutines (negative _) = 1
setup_max_http_download_goroutines (weight n) = if ltb n 1 then 1 else n
