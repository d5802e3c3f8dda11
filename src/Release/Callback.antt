-- ===== src/Release/Callback.antt =====
-- cmd/bscp/watch.go: `watchCallback`, which executes a release on a folder; client/types.go: its steps
-- `UpdateFiles` and `UpdateMetadata`. Release/Steps has the reports of `Execute` and its comparison, Release/Files the walk
-- of `clearOldFiles`, of which only the files that are left count here.
pub mod Released
mod Tests
use bscp_go.Prelude.{ℕ, Bool, not, Option, none, some, List, [], ◌∷◌, ◌++◌, if◌then◌else◌, Text}
use bscp_go.Labels.{Map}
use bscp_go.Release.Hooks.{
  HookType, pre_hook, post_hook, Hook, System, Secondary, Done, Primary, execute_script,
}
use bscp_go.Release.Log.{LogErr, Latest}
use bscp_go.Release.Steps.{
  EventMeta, ChangeEvent, watch, Release, Compared, skip, go, compare_failed, is_watch,
  compare_release,
}
use bscp_go.Release.Updates.{UpdateErr}
use bscp_go.Release.Folder.{Wanted, Meets, Folders, store_files, is_place}

-- An error of a step, or of the comparison before them.
pub data StepErr : Type 0 where
  hook_failed : Primary × Secondary → StepErr
  update_failed : UpdateErr → StepErr
  compare_err : LogErr → StepErr
  delete_old_files_failed metadata_failed : StepErr

-- What the steps change: the folders, what the hooks did, and the records of metadata.
pub record Target : Type 0 where
  pub folders : Folders
  pub done : Done
  pub metadata : List EventMeta

-- The release, what `compareRelease` reads of the two files of records, and what the steps meet:
-- `walk_fails` has the files that are left when `clearOldFiles` fails, and `append_ok` says whether the record is appended.
pub record Plan : Type 0 where
  pub release : Release
  pub last_meta : Latest EventMeta
  pub last_event : Latest ChangeEvent
  pub pre : Option Hook
  pub post : Option Hook
  pub files : List (Meets × Wanted)
  pub sys : System
  pub envs : List Text
  pub walk_fails : Option (Map (List ℕ))
  pub append_ok : Bool

-- The record of the release that `UpdateMetadata` makes.
abbrev pub meta_of : Plan → EventMeta
meta_of p = record { release_id = p.release.release_id; config_matches = p.release.match_ }

-- `compareRelease`
abbrev pub comparison : Plan → Compared
comparison p = (compare_release p.release p.last_meta p.last_event).0

-- The release with the mode that `watchCallback` sets.
abbrev pub watched : Plan → Plan
watched p = record p { release = record p.release { mode = watch } }

-- `ExecuteHook`
pub hook_step : HookType → Option Hook → Plan → Target → Option StepErr × Target
hook_step type hook p t =
    let (err, done) = execute_script p.sys type hook p.envs t.done in
    let t' : Target = record t { done = done } in
    elim err [ none ↦ (none, t') | some e ↦ (some (hook_failed e), t') ]

-- The files that `clearOldFiles` leaves.
pub kept_files : List (Meets × Wanted) → Map (List ℕ) → Map (List ℕ)
kept_files files [] = []
kept_files files ((place, bytes) ∷ m) =
    let rest = kept_files files m in if is_place place files then (place, bytes) ∷ rest else rest

-- `UpdateFiles` behind `updateFiles`.
pub clear_step : Plan → Target → Option StepErr × Target
unfolding kept_files
clear_step p t = if not (is_watch p.release.mode) then (none, t) else elim p.walk_fails [
  | some left ↦
      (some delete_old_files_failed, record t { folders = record t.folders { files = left } })
  | none ↦
      (none, record t { folders = record t.folders { files = kept_files p.files t.folders.files } })
]

-- `UpdateMetadata`
pub metadata_step : Plan → Target → Option StepErr × Target
metadata_step p t =
    if p.append_ok
    then (none, record t { metadata = t.metadata ++ meta_of p ∷ [] })
    else (some metadata_failed, t)

-- The loop of `Execute` over the steps.
pub run_all : List (Target → Option StepErr × Target) → Target → Option StepErr × Target
run_all [] t = (none, t)
run_all (step ∷ steps) t =
    let (e, t') = step t in
    let rest = run_all steps t' in elim e [ none ↦ rest | some x ↦ (some x, t') ]

module _ (sha256 : List ℕ → List ℕ) where
  -- `UpdateFiles`
  pub files_step : Plan → Target → Option StepErr × Target
  unfolding clear_step
  files_step p t =
      let (err, folders) = store_files sha256 p.files none t.folders in
      let t' : Target = record t { folders = folders } in
      elim err [ some e ↦ (some (update_failed e), t') | none ↦ clear_step p t' ]

  -- The steps that `watchCallback` gives to `Execute`.
  pub release_steps : Plan → Target → Option StepErr × Target
  release_steps p = run_all (
      hook_step pre_hook p.pre p
      ∷ files_step p
      ∷ hook_step post_hook p.post p
      ∷ metadata_step p
      ∷ [])

  -- `Execute` behind its comparison, without its reports.
  pub run_compared : Plan → Compared → Target → Option StepErr × Target
  unfolding release_steps
  run_compared p skip t = (none, t)
  run_compared p go t = release_steps p t
  run_compared p (compare_failed e) t = (some (compare_err e), t)

  -- `Execute` without its reports, on which its result does not depend: the steps, in a watch behind the
  -- comparison.
  pub execute_release : Plan → Target → Option StepErr × Target
  unfolding run_compared
  execute_release p t =
      if is_watch p.release.mode then run_compared p (comparison p) t else release_steps p t

  -- `watchCallback`
  pub watch_callback : Plan → Target → Option StepErr × Target
  unfolding execute_release
  watch_callback p = execute_release (watched p)
