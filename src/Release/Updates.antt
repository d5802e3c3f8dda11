-- ===== src/Release/Updates.antt =====
-- client/types.go: `updateFiles`, the goroutine of each file and what they count together.
pub mod Counted
mod Tests
use bscp_go.Prelude.{
  ℕ, ◌+◌, ◌%◌, ◌^◌, Bool, not, ◌&&◌, Option, none, some, List, [], ◌∷◌, if◌then◌else◌,
}

-- What `checkFileExists` returns.
pub data Check : Type 0 where
  present absent check_err : Check

-- What the goroutine of a file meets. `converts` tells that the line breaks of the file are to be
-- converted.
pub record FileRun : Type 0 where
  pub mkdir_ok : Bool
  pub check : Check
  pub save_ok : Bool
  pub converts : Bool
  pub convert_ok : Bool
  pub byte_size : ℕ

pub data UpdateErr : Type 0 where
  new_folder_failed check_file_exists_failed save_failed convert_failed : UpdateErr

-- The counters: of the log, and the two that are reported.
pub record Counters : Type 0 where
  pub success : ℕ
  pub failed : ℕ
  pub skip : ℕ
  pub downloads : ℕ
  pub file_size : ℕ

pub zeros : Counters
zeros = record { success = 0; failed = 0; skip = 0; downloads = 0; file_size = 0 }

-- The goroutine behind the download: the conversion, and the two reported counters. A failure of the
-- permission is only logged.
pub complete : FileRun → Counters → Option UpdateErr × Counters
complete f c = if f.converts && not f.convert_ok then (some convert_failed, c) else (
  none,
  record c { downloads = c.downloads + 1; file_size = (c.file_size + f.byte_size) % 2 ^ 64 },
)

pub update_file : FileRun → Counters → Option UpdateErr × Counters
unfolding complete
update_file f c =
    let failed : Counters = record c { failed = c.failed + 1 } in
    if not f.mkdir_ok then (some new_folder_failed, failed) else elim f.check [
      | check_err ↦ (some check_file_exists_failed, failed)
      | present ↦ complete f (record c { skip = c.skip + 1 })
      | absent ↦
          if not f.save_ok
          then (some save_failed, failed)
          else complete f (record c { success = c.success + 1 })
    ]

-- The goroutines in the order in which they end: the first error is the group's, and the others run
-- to their end all the same.
pub run_files : List FileRun → Option UpdateErr → Counters → Option UpdateErr × Counters
unfolding update_file
run_files [] e c = (e, c)
run_files (f ∷ fs) e c =
    let (e', c') = update_file f c in
    let first : Option UpdateErr = elim e [ none ↦ e' | some x ↦ some x ] in run_files fs first c'

-- `updateFiles`, which sets the counters back first.
pub update_files : List FileRun → Option UpdateErr × Counters
unfolding run_files zeros
update_files fs = run_files fs none zeros
