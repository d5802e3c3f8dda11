-- ===== src/Download/Exec/Complete.antt =====
-- `do` and `Download`: over all repositories, a download that returns no error has the content.
use bscp_go.Retry.{RetryPolicy}
use bscp_go.Prelude.{
  ℕ, ◌*◌, ◌^◌, ◌<◌, inl, inr, Bool, true, false, Option, none, some, List, [], ◌∷◌, ◌++◌, ltb,
  Bool-cases, length,
}
use bscp_go.Download.Body.{FileBytes, Target, to_bytes, to_file}
use bscp_go.Download.Exec.{
  Failure, Outcome, ok, err, stuck, Repo, all_failed, UrlReply, urls, permission_denied,
  unauthenticated, other_error, failed_precondition, into_file, download, try_all, do_exec,
  http_download, download_any,
}
use bscp_go.Download.Exec.Content.{Has, OutcomeRight, HonestRepos, HonestReply, download_right}

module _ (content : List ℕ) (policy : RetryPolicy) (balance : ℕ) (pb : 0 < balance)
    (bounded : balance < 2 ^ 63) (fits : length content < 2 ^ 63) where
  all_failed_right :
      (errs : List Failure) (f : FileBytes) → OutcomeRight content (all_failed errs (to_file f))
  unfolding all_failed
  all_failed_right [] f = tt
  all_failed_right (e ∷ []) f = tt
  all_failed_right (e ∷ e' ∷ es) f = tt

  tried_right :
      (o : Outcome) (again : Failure → Target → Outcome)
      → OutcomeRight content o
      → ((e : Failure) (f : FileBytes) → OutcomeRight content (again e (to_file f)))
      → OutcomeRight content (elim o [ ok t ↦ ok t | err e t ↦ again e t | stuck ↦ stuck ])
  tried_right (ok t) again h next = h
  tried_right (err e (to_file f)) again h next = next e f
  tried_right (err e (to_bytes _)) again h next = absurd h
  tried_right stuck again h next = tt

  try_all_right :
      (f : FileBytes) (errs : List Failure) (repos : List Repo)
      → HonestRepos content repos
      → OutcomeRight content (try_all policy balance (length content) (to_file f) errs repos)
  unfolding try_all
  try_all_right f errs [] h = all_failed_right errs f
  try_all_right f errs (repo ∷ repos) (h, hs) =
      tried_right (download policy balance (length content) (to_file f) repo)
        (λ e t. try_all policy balance (length content) t (errs ++ (e ∷ [])) repos)
        (download_right content policy balance pb bounded fits f repo h)
        (λ e f'. try_all_right f' (errs ++ (e ∷ [])) repos hs)

  do_right :
      (f : FileBytes) (reply : UrlReply)
      → HonestReply content reply
      → OutcomeRight content (do_exec policy balance (length content) (to_file f) reply)
  unfolding do_exec
  do_right f (urls [] u) (_, h) = try_all_right f [] (u ∷ []) (h, tt)
  do_right f (urls (u ∷ us) v) (h, _) = try_all_right f [] (u ∷ us) h
  do_right f permission_denied h = tt
  do_right f unauthenticated h = tt
  do_right f other_error h = tt
  do_right f (failed_precondition ds) h = tt

  -- Every repository serves ranges: to a request with a range it answers 206 with exactly the bytes
  -- of the range, never 200 with the whole file; to one without it answers 200 or 206 with the
  -- whole content; or it answers with a status other than these two, or not at all. Then a download
  -- to a file, over all repositories, retries, and both ways to download, returns no error only if
  -- the file has every byte of the content at its place. The content is smaller than 2^63 bytes,
  -- and the balance size is not 0 and below 2^63.
  pub http_download-right :
      (path_is_empty opened : Bool) (reply : UrlReply)
      → HonestReply content reply
      → OutcomeRight content
          (http_download policy balance (length content) (into_file path_is_empty opened) reply)
  unfolding http_download
  http_download-right true opened reply h = tt
  http_download-right false true reply h = do_right (λ i. none) reply h
  http_download-right false false reply h = tt

  -- What the asynchronous downloader leaves: with no error, a file that has the content.
  abbrev pub AsyncRight : Option Target → Type 0
  AsyncRight none = Unit
  AsyncRight (some t) = Has content t

  -- The same of the choice between the downloaders: when the asynchronous one returns no error only
  -- for a file that has the content, and the repositories serve ranges, then a download to a file that
  -- returns no error has the content, also where the one downloader takes the other's place.
  pub download_any-right :
      (enable_async_download path_is_empty opened : Bool) (async : Option Target) (reply : UrlReply)
      → AsyncRight async
      → HonestReply content reply
      → OutcomeRight content (
          download_any policy balance enable_async_download
            (length content)
            (into_file path_is_empty opened)
            async
            reply)
  unfolding download_any
  download_any-right false path_is_empty opened async reply a h =
      http_download-right path_is_empty opened reply h
  download_any-right true path_is_empty opened async reply a h =
      elim (Bool-cases (ltb (length content) (2 * 1024 * 1024))) [
        | inl small ↦ rw small (http_download-right path_is_empty opened reply h)
        | inr large ↦ rw large (by_async async a)
      ]
    where
      by_async :
          (o : Option Target)
          → AsyncRight o
          → OutcomeRight content (elim o [
            | some t ↦ ok t
            | none ↦
                http_download policy balance (length content) (into_file path_is_empty opened) reply
          ])
      by_async none a' = http_download-right path_is_empty opened reply h
      by_async (some t) a' = a'
