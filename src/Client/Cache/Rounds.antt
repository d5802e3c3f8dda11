-- ===== src/Client/Cache/Rounds.antt =====
-- A round of the cleanup brings the cache back to its threshold.
use bscp_go.Prelude.{
  ℕ, ◌+◌, ◌-◌, ◌≤◌, ◌<◌, ◌≡◌, refl, ap, ◌∙◌, ◌⊎◌, inl, inr, Bool, true, false, List, [], ◌∷◌, ◌++◌,
  arith, ltb, Bool-cases,
}
use bscp_go.Client.Cache.{
  FileInfo, insert, sort_by_time, list_files_by_mod_time, calculate_dir_size, cleanup_oldest_files,
  cleanup_round,
}
use bscp_go.Client.Cache.Oldest.{total, all_ok, cleanup-oldest}

total-insert : (f : FileInfo) (fs : List FileInfo) → total (insert f fs) ≡ f.size + total fs
unfolding insert
total-insert f [] = refl
total-insert f (g ∷ gs) = ground (arith, total-insert f gs)

total-list : (fs : List FileInfo) → total (sort_by_time fs) ≡ total fs
unfolding sort_by_time
total-list [] = refl
total-list (f ∷ fs) = omega (arith, total-insert f (sort_by_time fs), total-list fs)

total-append : (fs gs : List FileInfo) → total (fs ++ gs) ≡ total fs + total gs
total-append [] gs = omega arith
total-append (f ∷ fs) gs = omega (arith, total-append fs gs)

size-total : (own : ℕ) (fs : List FileInfo) → calculate_dir_size own fs ≡ own + total fs
unfolding calculate_dir_size
size-total own [] = omega arith
size-total own (f ∷ fs) = omega (arith, size-total own fs)

unlisted_round :
    (limit keep own : ℕ) (files : List FileInfo) (oks : List Bool)
    → cleanup_round limit keep true false own files oks ≡ files
unfolding cleanup_round cleanup_oldest_files list_files_by_mod_time
unlisted_round limit keep own files oks = ground arith

-- After a round in which the sizes can be read, the files be listed and every removal works, and with
-- a share to keep that is not above the threshold: the folder is empty or its size is at most the
-- threshold, and a folder that was not above the threshold is left as it is. A round in which the files
-- cannot be listed leaves the folder as it is.
pub cleanup_round-le :
    (limit keep own : ℕ) (files : List FileInfo)
    → keep ≤ limit
    → let left = cleanup_round limit keep true true own files (all_ok (sort_by_time files)) in
      ((left ≡ []) ⊎ (calculate_dir_size own left ≤ limit))
      × ((limit < calculate_dir_size own files) ⊎ (left ≡ files))
      × ((oks : List Bool) → cleanup_round limit keep true false own files oks ≡ files)
unfolding cleanup_round
cleanup_round-le limit keep own files share =
    (within_limit.0, within_limit.1, unlisted_round limit keep own files)
  where
    current : ℕ
    current = calculate_dir_size own files

    left : List FileInfo
    left = (cleanup_oldest_files true files (all_ok (sort_by_time files)) (current - keep)).1

    within_limit :
        ((cleanup_round limit keep true true own files (all_ok (sort_by_time files)) ≡ [])
          ⊎ (calculate_dir_size own
                (cleanup_round limit keep true true own files (all_ok (sort_by_time files)))
              ≤ limit))
        × ((limit < current)
            ⊎ (cleanup_round limit keep true true own files (all_ok (sort_by_time files)) ≡ files))
    within_limit = elim (Bool-cases (ltb limit current)) [
      | inr within ↦ rw within (inr (ground arith), inr refl)
      | inl above ↦
          let (removed, parts, older, enough, least) = cleanup-oldest files (current - keep) in
          let sum : total (sort_by_time files) ≡ total removed + total left =
            ap total parts ∙ total-append removed left in
          rw above (
            elim enough [
              | inl none_left ↦ inl none_left
              | inr freed ↦
                  inr (
                    omega (arith, sum, total-list files, size-total own files, size-total own left))
            ],
            inl (ground arith),
          )
    ]
