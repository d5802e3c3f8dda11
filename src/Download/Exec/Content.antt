-- ===== src/Download/Exec/Content.antt =====
-- The HTTP downloader's result: a download to a file that returns no error has the content.
use mathlib.Core.Path.{subst}
use bscp_go.Retry.{RetryPolicy}
use bscp_go.Prelude.{
  ℕ, ◌+◌, ◌^◌, ◌<◌, ◌≡◌, refl, inl, inr, not, ◌&&◌, List, [], ◌∷◌, ◌++◌, arith, leb, ◌==◌,
  if◌then◌else◌, Bool-cases, length, get_elem?,
}
use bscp_go.Download.Body.{
  FileBytes, Target, to_bytes, to_file, WriteResult, finished, failed, pending, panics, write,
}
use bscp_go.Download.Body.Written.{Sound, write-Sound}
use bscp_go.Download.Ranges.{whole}
use bscp_go.Download.Http.{
  Reply, no_request, no_response, response, Ask, HttpErr, Attempt, got, missed, hung, crashed,
  do_request, written, fetch, download_directly, Retried, succeeded, waiting, crash, retrying,
  Support, ranges, no_ranges, head_failed, is_provider_support_range_download,
}
use bscp_go.Download.Http.Retries.{IsFile}
use bscp_go.Download.Http.Ranged.{
  Ended, running, panicked, hit_error, complete, download_with_range,
}
use bscp_go.Download.Http.Ranged.Content.{Honest, accepted-Serves, AllHonest}
use bscp_go.Download.Http.Ranged.Whole.{download_with_range-complete, download_with_range-IsFile}
use bscp_go.Download.Exec.{
  validate_download_failed, Outcome, ok, err, stuck, Repo, UrlReply, urls, permission_denied,
  unauthenticated, other_error, failed_precondition, retried, directly, ended, download,
}

module _ (content : List ℕ) where
  -- The file has the whole content; a target that is no file does not come up.
  abbrev pub Has : Target → Type 0
  Has (to_file f) = (i : ℕ) → i < length content → f i ≡ get_elem? content i
  Has (to_bytes _) = ⊥

  abbrev pub OutcomeRight : Outcome → Type 0
  OutcomeRight (ok t) = Has t
  OutcomeRight (err e t) = IsFile t
  OutcomeRight stuck = Unit

  abbrev AttemptRight : Attempt → Type 0
  AttemptRight (got t) = Has t
  AttemptRight (missed e t) = IsFile t
  AttemptRight hung = Unit
  AttemptRight crashed = ⊥

  abbrev pub HonestAsks : List Ask → Type 0
  HonestAsks [] = Unit
  HonestAsks (ask ∷ asks) = Honest content whole (ask whole).reply × HonestAsks asks

  abbrev pub HonestRepo : Repo → Type 0
  HonestRepo repo = AllHonest content repo.schedule × HonestAsks repo.asks

  abbrev pub HonestRepos : List Repo → Type 0
  HonestRepos [] = Unit
  HonestRepos (repo ∷ repos) = HonestRepo repo × HonestRepos repos

  -- Every repository answers each request as one that serves ranges does.
  abbrev pub HonestReply : UrlReply → Type 0
  HonestReply (urls us u) = HonestRepos us × HonestRepo u
  HonestReply permission_denied = Unit
  HonestReply unauthenticated = Unit
  HonestReply other_error = Unit
  HonestReply (failed_precondition _) = Unit

  Sound-AttemptRight :
      (f : FileBytes) (r : WriteResult)
      → Sound content 0 f (length content) 0 r
      → AttemptRight (written r)
  unfolding written
  Sound-AttemptRight f (finished (to_file f')) (t, all) =
      λ i u. subst (λ (k : ℕ). f' k ≡ get_elem? content i) (start i) (all i (omega arith) u)
    where
      start : (i : ℕ) → 0 + i ≡ i
      start i = omega arith
  Sound-AttemptRight f (finished (to_bytes _)) h = h
  Sound-AttemptRight f (failed x (to_file f')) t = tt
  Sound-AttemptRight f (failed x (to_bytes _)) h = h
  Sound-AttemptRight f pending h = tt
  Sound-AttemptRight f panics h = h

  fetch_right :
      (f : FileBytes) (r : Reply)
      → Honest content whole r
      → AttemptRight (fetch (length content) 0 (to_file f) (do_request r))
  unfolding fetch do_request
  fetch_right f no_request h = tt
  fetch_right f no_response h = tt
  fetch_right f (response code chunks) h =
      elim (Bool-cases (not (code == 200) && not (code == 206))) [
        | inl bad ↦ rw bad tt
        | inr good ↦ rw good (
            Sound-AttemptRight f (write (to_file f) (length content) 0 0 chunks) (
              write-Sound content 0 chunks f (length content) 0
                (accepted-Serves content whole code chunks h good)))
      ]

  attempt_right :
      (f : FileBytes) (ask : Ask)
      → Honest content whole (ask whole).reply
      → AttemptRight (download_directly (length content) (to_file f) ask)
  unfolding download_directly
  attempt_right f ask h = elim (Bool-cases (ask whole).acquired) [
    | inl free ↦ rw free (fetch_right f (ask whole).reply h)
    | inr taken ↦ rw taken tt
  ]

  module _ (policy : RetryPolicy) (balance : ℕ) where
    abbrev RetriedRight : Retried policy → Type 0
    RetriedRight r = OutcomeRight (retried policy balance r)

    attempted_right :
        (a : Attempt) (again : HttpErr → Target → Retried policy)
        → AttemptRight a
        → ((e : HttpErr) (f : FileBytes) → RetriedRight (again e (to_file f)))
        → RetriedRight (elim a [
          | got target' ↦ succeeded target'
          | missed e target' ↦ again e target'
          | hung ↦ waiting
          | crashed ↦ crash
        ])
    unfolding retried
    attempted_right (got t) again o h = o
    attempted_right (missed e (to_file f)) again o h = h e f
    attempted_right (missed e (to_bytes _)) again o h = absurd o
    attempted_right hung again o h = tt
    attempted_right crashed again o h = tt

    retrying_right :
        (p : policy.Policy) (errs : List HttpErr) (f : FileBytes) (asks : List Ask)
        → HonestAsks asks
        → RetriedRight
            (retrying policy (download_directly (length content)) p errs (to_file f) asks)
    unfolding retrying retried
    retrying_right p errs f [] h = elim (Bool-cases (leb 5 (policy.retry_count p))) [
      | inl over ↦ rw over tt
      | inr more ↦ rw more tt
    ]
    retrying_right p errs f (ask ∷ asks) (h, hs) =
        elim (Bool-cases (leb 5 (policy.retry_count p))) [
          | inl over ↦ rw over tt
          | inr more ↦ rw more (
              attempted_right (download_directly (length content) (to_file f) ask)
                (λ e target'.
                  retrying policy (download_directly (length content)) (policy.sleep p)
                    (errs ++ (e ∷ [])) target' asks)
                (attempt_right f ask h)
                (λ e f'. retrying_right (policy.sleep p) (errs ++ (e ∷ [])) f' asks hs))
        ]

    directly_right :
        (f : FileBytes) (asks : List Ask)
        → HonestAsks asks
        → OutcomeRight (directly policy balance (length content) (to_file f) asks)
    unfolding directly
    directly_right f asks h = retrying_right policy.new_policy [] f asks h

    module _ (pb : 0 < balance) (bounded : balance < 2 ^ 63) (fits : length content < 2 ^ 63) where
      ended_right :
          (e : Ended) (t : Target)
          → IsFile t
          → ((f : FileBytes)
              → ◌≡◌ {A = Ended × Target} (e, t) (complete, to_file f)
              → Has (to_file f))
          → OutcomeRight (ended policy balance (e, t))
      unfolding ended
      ended_right complete (to_file f) isf h = h f refl
      ended_right hit_error t isf h = isf
      ended_right running t isf h = tt
      ended_right panicked t isf h = tt
      ended_right e (to_bytes _) isf h = absurd isf

      ranged_right :
          (f : FileBytes) (schedule : List (ℕ × Ask))
          → 0 < length content
          → AllHonest content schedule
          → OutcomeRight (
              ended policy balance
                (download_with_range policy (length content) balance (to_file f) schedule))
      ranged_right f schedule ps h =
          let d : Ended × Target =
            download_with_range policy (length content) balance (to_file f) schedule in
          ended_right (d.0) (d.1)
            (download_with_range-IsFile policy content balance f schedule pb bounded ps fits h)
            (λ f' e.
              download_with_range-complete policy content balance f f' schedule pb bounded ps fits h
                e)

      pub download_right :
          (f : FileBytes) (repo : Repo)
          → HonestRepo repo
          → OutcomeRight (download policy balance (length content) (to_file f) repo)
      unfolding download
      download_right f repo (hs, ha) = elim (Bool-cases (leb (length content) balance)) [
        | inl small ↦ rw small (directly_right f repo.asks ha)
        | inr big ↦ rw big (supported (ground arith) (is_provider_support_range_download repo.head))
      ]
        where
          supported :
              0 < length content
              → (s : Support)
              → OutcomeRight (elim s [
                | ranges size ↦
                    if size == length content
                    then ended policy balance (
                        download_with_range policy
                          (length content)
                          balance
                          (to_file f)
                          repo.schedule)
                    else err validate_download_failed (to_file f)
                | no_ranges ↦ directly policy balance (length content) (to_file f) repo.asks
                | head_failed ↦ directly policy balance (length content) (to_file f) repo.asks
              ])
          supported ps (ranges size) = elim (Bool-cases (size == length content)) [
            | inl same ↦ rw same (ranged_right f repo.schedule ps hs)
            | inr other ↦ rw other tt
          ]
          supported ps no_ranges = directly_right f repo.asks ha
          supported ps head_failed = directly_right f repo.asks ha
