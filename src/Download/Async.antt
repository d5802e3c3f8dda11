-- ===== src/Download/Async.antt =====
-- internal/downloader/async.go: the asynchronous downloader, which waits for a task of the server and
-- moves the file that it leaves to the target.
pub mod Checked
mod Tests
use bscp_go.Prelude.{ℕ, Bool, not, Option, none, some, List, [], ◌∷◌, if◌then◌else◌, take, bytes_eq}

-- A round of the polling: the timeout, an error of the call, or the task's status.
pub data Poll : Type 0 where
  timed_out status_failed : Poll
  task_failed task_downloading task_success task_unknown : Poll

pub data AsyncErr : Type 0 where
  create_failed await_timed_out await_failed async_failed rename_failed : AsyncErr
  open_failed create_target_failed copy_failed sync_failed hash_failed not_matched : AsyncErr

-- How a wait ends: without an error, with one, or not yet.
pub data Awaited : Type 0 where
  completed : Awaited
  await_err : AsyncErr → Awaited
  polling : Awaited

-- `awaitDownloadCompletion`
pub await_download_completion : List Poll → Awaited
await_download_completion [] = polling
await_download_completion (timed_out ∷ ps) = await_err await_timed_out
await_download_completion (status_failed ∷ ps) = await_err await_failed
await_download_completion (task_failed ∷ ps) = await_err async_failed
await_download_completion (task_downloading ∷ ps) = await_download_completion ps
await_download_completion (task_success ∷ ps) = completed
await_download_completion (task_unknown ∷ ps) = await_download_completion ps

pub data Rename : Type 0 where
  renamed cross_device rename_err : Rename

-- How the calls of the file system go; `copied` is how many bytes are copied, if not all.
pub record Calls : Type 0 where
  pub rename : Rename
  pub create_ok : Bool
  pub copied : Option ℕ
  pub sync_ok : Bool
  pub remove_ok : Bool
  pub hash_ok : Bool

-- The file that the task leaves, and the target.
pub record Pair : Type 0 where
  pub src : Option (List ℕ)
  pub dst : Option (List ℕ)

-- The steps of `crossDeviceMoveFile` behind the copy; an error of the removal is only logged.
pub after_copy : Calls → List ℕ → Pair → Option AsyncErr × Pair
after_copy c bytes p =
    let both : Pair = record p { dst = some bytes } in
    if not c.sync_ok
    then (some sync_failed, both)
    else (none, if c.remove_ok then record both { src = none } else both)

-- `crossDeviceMoveFile`
pub cross_device_move_file : Calls → Pair → Option AsyncErr × Pair
unfolding after_copy
cross_device_move_file c p = elim p.src [
  | none ↦ (some open_failed, p)
  | some bytes ↦ if not c.create_ok then (some create_target_failed, p) else elim c.copied [
    | some n ↦ (some copy_failed, record p { dst = some (take n bytes) })
    | none ↦ after_copy c bytes p
  ]
]

-- `MoveFile`
pub move_file : Calls → Pair → Option AsyncErr × Pair
unfolding cross_device_move_file
move_file c p = elim p.src [
  | none ↦ (some rename_failed, p)
  | some bytes ↦ elim c.rename [
    | renamed ↦ (none, record { src = none; dst = some bytes })
    | cross_device ↦ cross_device_move_file c p
    | rename_err ↦ (some rename_failed, p)
  ]
]

module _ (sha256 : List ℕ → List ℕ) where
  -- `verifyChecksum`
  pub verify_checksum : Calls → List ℕ → Option (List ℕ) → Option AsyncErr
  verify_checksum c signature none = some hash_failed
  verify_checksum c signature (some bytes) =
      if not c.hash_ok
      then some hash_failed
      else if bytes_eq (sha256 bytes) signature
      then none
      else some not_matched

  -- The move and the check.
  pub take_over : Calls → List ℕ → Pair → Option AsyncErr × Pair
  unfolding move_file verify_checksum
  take_over c signature p =
      let (e, moved) = move_file c p in
      elim e [ some x ↦ (some x, moved) | none ↦ (verify_checksum c signature moved.dst, moved) ]

  -- `Download`: whether the task is created, the polls, and the files once they are over.
  pub async_download : Bool → List Poll → Calls → List ℕ → Pair → Option (Option AsyncErr × Pair)
  unfolding take_over
  async_download created polls c signature p =
      if not created then some (some create_failed, p) else elim (await_download_completion polls) [
        | polling ↦ none
        | await_err e ↦ some (some e, p)
        | completed ↦ some (take_over c signature p)
      ]
