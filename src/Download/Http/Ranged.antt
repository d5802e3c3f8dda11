-- ===== src/Download/Http/Ranged.antt =====
-- internal/downloader/http.go: `downloadWithRange`, whose goroutines each fetch one part into the
-- same file. One attempt of one goroutine is a step, and a schedule gives the order of the steps.
pub mod Content
pub mod Complete
pub mod Whole
use bscp_go.Retry.{RetryPolicy}
use bscp_go.Prelude.{ℕ, zero, suc, ◌*◌, List, [], ◌∷◌, ◌++◌, leb, ◌==◌, if◌then◌else◌}
use bscp_go.Download.Body.{Target}
use bscp_go.Download.Ranges.{u64, parts}
use bscp_go.Download.Http.{
  Ask, HttpErr, Attempt, got, missed, hung, crashed, download_one_ranged_part,
}

pub data Phase : Type 0 where
  fetching fetched part_failed part_crashed : Phase

-- How `wg.Wait()` and the test of `hitError` end. `running`: a part is still fetched.
pub data Ended : Type 0 where
  running panicked hit_error complete : Ended

module _ (policy : RetryPolicy) where
  -- The goroutine of a part: its `from` and `to`, and the variables of its loop.
  pub record Worker : Type 0 where
    pub bounds : ℕ × ℕ
    pub retry : policy.Policy
    pub all_errors : List HttpErr
    pub phase : Phase

  pub workers : List (ℕ × ℕ) → List Worker
  workers [] = []
  workers (b ∷ bs) =
      record { bounds = b; retry = policy.new_policy; all_errors = []; phase = fetching }
      ∷ workers bs

  -- The loop of `downloadOneRangedPartWithRetry`, one round of it.
  pub settle : Worker → Target → Attempt → Worker × Target
  settle w target (got target') = (record w { phase = fetched }, target')
  settle w target (missed e target') =
      (record w { retry = policy.sleep w.retry; all_errors = w.all_errors ++ (e ∷ []) }, target')
  settle w target hung = (w, target)
  settle w target crashed = (record w { phase = part_crashed }, target)

  pub round : Worker → Target → Ask → Worker × Target
  unfolding settle
  round w target ask = elim w.phase [
    | fetching ↦
        if leb 5 (policy.retry_count w.retry)
        then (record w { phase = part_failed }, target)
        else settle w target (download_one_ranged_part w.bounds target ask)
    | _ ↦ (w, target)
  ]

  -- The `i`-th goroutine takes its next step.
  unfoldable pub step : ℕ → Ask → List Worker → Target → List Worker × Target
  unfolding round
  step i ask [] target = ([], target)
  step zero ask (w ∷ ws) target = let (w', target') = round w target ask in (w' ∷ ws, target')
  step (suc i) ask (w ∷ ws) target = let (ws', target') = step i ask ws target in (w ∷ ws', target')

  unfoldable pub run : List (ℕ × Ask) → List Worker → Target → List Worker × Target
  unfolding step
  run [] ws target = (ws, target)
  run ((i, ask) ∷ rest) ws target =
      let (ws', target') = step i ask ws target in run rest ws' target'

  -- `wg.Wait()` and the test of `hitError`: a part that failed has left its error.
  pub wait_all : List Worker → Ended
  wait_all [] = complete
  wait_all (w ∷ ws) = elim (wait_all ws) [
    | running ↦ running
    | panicked ↦ panicked
    | hit_error ↦ elim w.phase [ fetching ↦ running | part_crashed ↦ panicked | _ ↦ hit_error ]
    | complete ↦ elim w.phase [
      | fetching ↦ running
      | fetched ↦ complete
      | part_failed ↦ hit_error
      | part_crashed ↦ panicked
    ]
  ]

  -- `downloadWithRange`, with `balance` the `balanceDownloadByteSize`; a division by 0 panics.
  unfoldable pub download_with_range : ℕ → ℕ → Target → List (ℕ × Ask) → Ended × Target
  unfolding run wait_all workers
  download_with_range file_size balance target schedule =
      let batch_size = u64 (2 * balance) in
      let (ws, target') = run schedule (workers (parts file_size batch_size)) target in
      if batch_size == 0 then (panicked, target) else (wait_all ws, target')
