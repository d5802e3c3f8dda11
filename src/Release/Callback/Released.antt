-- ===== src/Release/Callback/Released.antt =====
-- What a callback leaves.
use bscp_go.Prelude.{
  ℕ, ◌≡◌, refl, ◌∙◌, ◌⊎◌, inl, inr, Bool, true, false, not, ◌&&◌, Option, none, List, [], ◌∷◌, ◌++◌,
  arith, if◌then◌else◌, Option-cases, is_none, Text,
}
use bscp_go.Labels.{Map, lookup}
use bscp_go.Release.Hooks.{HookType, pre_hook, post_hook, Hook}
use bscp_go.Release.Steps.{EventMeta, Compared, skip, go, compare_failed, is_watch}
use bscp_go.Release.Folder.{Wanted, Meets, is_place}
use bscp_go.Release.Folder.Written.{AllWritten}
use bscp_go.Release.Callback.{
  StepErr, Target, Plan, meta_of, comparison, watched, hook_step, clear_step, metadata_step,
  run_all, files_step, release_steps, run_compared, execute_release, watch_callback,
}

-- A step that keeps the metadata, before others.
run_all-metadata :
    (step : Target → Option StepErr × Target) (steps : List (Target → Option StepErr × Target))
    (meta : EventMeta) (t : Target) (old : List EventMeta)
    → (step t).1.metadata ≡ old
    → (run_all steps (step t).1).1.metadata
      ≡ (if is_none (run_all steps (step t).1).0 then old ++ meta ∷ [] else old)
    → (run_all (step ∷ steps) t).1.metadata
      ≡ (if is_none (run_all (step ∷ steps) t).0 then old ++ meta ∷ [] else old)
unfolding run_all
run_all-metadata step steps meta t old same h = elim (Option-cases (step t).0) [
  | inl e ↦ rw (e, run_all) h
  | inr (x, e) ↦ rw (e, run_all) same
]

last-metadata :
    (p : Plan) (t : Target) (old : List EventMeta)
    → t.metadata ≡ old
    → (run_all (metadata_step p ∷ []) t).1.metadata
      ≡ (if is_none (run_all (metadata_step p ∷ []) t).0 then old ++ meta_of p ∷ [] else old)
unfolding run_all metadata_step
last-metadata p t old h = ground arith

hook_step-metadata :
    (type : HookType) (hook : Option Hook) (p : Plan) (t : Target)
    → (hook_step type hook p t).1.metadata ≡ t.metadata
unfolding hook_step
hook_step-metadata type hook p t = ground arith

abbrev pub is_skip : Compared → Bool
is_skip skip = true
is_skip go = false
is_skip (compare_failed e) = false

-- Whether the comparison finds the release in place.
abbrev pub skips : Plan → Bool
skips p = is_skip (comparison (watched p))

module _ (sha256 : List ℕ → List ℕ) where
  -- The folder has the release's files, and no other.
  abbrev pub IsReleased : List (Meets × Wanted) → Map (List ℕ) → Type 0
  IsReleased files m =
      AllWritten sha256 files m × ((j : Text) → (is_place j files ≡ true) ⊎ (lookup j m ≡ none))

  files_step-metadata : (p : Plan) (t : Target) → (files_step sha256 p t).1.metadata ≡ t.metadata
  unfolding files_step clear_step
  files_step-metadata p t = ground arith

  release_steps-metadata :
      (p : Plan) (t : Target)
      → (release_steps sha256 p t).1.metadata ≡ (
          if is_none (release_steps sha256 p t).0 then t.metadata ++ meta_of p ∷ [] else t.metadata)
  unfolding release_steps
  release_steps-metadata p t =
      let pre = hook_step-metadata pre_hook p.pre p t in
      let t1 = (hook_step pre_hook p.pre p t).1 in
      let mid = files_step-metadata p t1 ∙ pre in
      let t2 = (files_step sha256 p t1).1 in
      let post = hook_step-metadata post_hook p.post p t2 ∙ mid in
      run_all-metadata _ _ (meta_of p) t t.metadata pre (
        run_all-metadata _ _ (meta_of p) t1 t.metadata mid (
          run_all-metadata _ _ (meta_of p) t2 t.metadata post
            (last-metadata p (hook_step post_hook p.post p t2).1 t.metadata post)))

  run_compared-metadata :
      (p : Plan) (c : Compared) (t : Target)
      → (run_compared sha256 p c t).1.metadata ≡ (
          if is_none (run_compared sha256 p c t).0 && not (is_skip c)
          then t.metadata ++ meta_of p ∷ []
          else t.metadata)
  unfolding run_compared
  run_compared-metadata p skip t = refl
  run_compared-metadata p go t = ground (arith, release_steps-metadata p t)
  run_compared-metadata p (compare_failed e) t = refl

  -- The metadata of the release is recorded, once and behind the records from before, exactly when the
  -- callback does not find the release in place by the records, and succeeds; a callback whose
  -- comparison or whose step fails leaves the records as they were, and so does one that skips.
  pub callback-metadata :
      (p : Plan) (t : Target)
      → (watch_callback sha256 p t).1.metadata ≡ (
          if is_none (watch_callback sha256 p t).0 && not (skips p)
          then t.metadata ++ meta_of p ∷ []
          else t.metadata)
  unfolding watch_callback execute_release is_watch
  callback-metadata p t = run_compared-metadata (watched p) (comparison (watched p)) t
