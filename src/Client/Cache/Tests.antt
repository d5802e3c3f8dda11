-- ===== src/Client/Cache/Tests.antt =====
-- The file cache at concrete files, with the length of a text for its digest.
use bscp_go.Client.Cache.Rounds.{cleanup_round-le}
use bscp_go.Prelude.{
  ℕ, ◌≤◌, ◌<◌, ◌≡◌, refl, ◌⊎◌, Bool, true, false, none, some, List, [], ◌∷◌, ◌++◌, arith, length,
}
use bscp_go.Client.Cache.{
  Item, Disk, copy, get_file_content, copy_to_file, save_to_file, FileInfo, sort_by_time,
  list_files_by_mod_time, remove_oldest, calculate_dir_size, cleanup_oldest_files, cleanup_round,
}
use bscp_go.Client.Cache.Copies.{Signed, save_to_file-signed}
use bscp_go.Client.Cache.Oldest.{total, first, all_ok, Older, cleanup-oldest}

abbrev length_of : List ℕ → List ℕ
length_of bytes = length bytes ∷ []

abbrev item_2 : Item
item_2 = record { signature = 2 ∷ []; byte_size = 2 }

abbrev disk_ok : Disk
disk_ok = record { stat_ok = true; hash_ok = true; read_ok = true; target_ok = true; copied = none }

-- The cached file is broken, and is downloaded again.
saved_done :
    (save_to_file length_of true 10 disk_ok item_2
      (true, some (7 ∷ 8 ∷ []))
      (false, none)
      (some (7 ∷ []))
      none).0
    ≡ true
unfolding save_to_file copy_to_file copy bscp_go.Client.Cache.check_file_cache_exists
saved_done = refl

save_to_file-signed_example : Signed length_of item_2 (
    (save_to_file length_of true 10 disk_ok item_2
      (true, some (7 ∷ 8 ∷ []))
      (false, none)
      (some (7 ∷ []))
      none).2)
save_to_file-signed_example =
    save_to_file-signed length_of true 10 disk_ok item_2 (true, some (7 ∷ 8 ∷ [])) (false, none)
      (some (7 ∷ [])) none (λ e. refl) (λ e. absurd (grind arith)) saved_done

cached_hit : get_file_content length_of disk_ok item_2 (some (7 ∷ 8 ∷ [])) ≡ some (7 ∷ 8 ∷ [])
unfolding get_file_content bscp_go.Client.Cache.check_file_cache_exists
cached_hit = refl

abbrev sized : ℕ → ℕ → FileInfo
sized s t = record { name = []; size = s; mod_time = t }

abbrev three_files : List FileInfo
three_files = sized 5 3 ∷ sized 4 1 ∷ sized 6 2 ∷ []

-- To free 7, the two oldest go.
two_removed : (cleanup_oldest_files true three_files (true ∷ true ∷ true ∷ []) 7).1 ≡ sized 5 3 ∷ []
unfolding cleanup_oldest_files remove_oldest list_files_by_mod_time sort_by_time
two_removed = refl

cleanup-oldest_example :
    let files = sort_by_time three_files in
    let left = (cleanup_oldest_files true three_files (all_ok files) 7).1 in
    (removed : List FileInfo) × (files ≡ removed ++ left)
    × Older removed left
    × ((left ≡ []) ⊎ (7 ≤ total removed))
    × ((k : ℕ) → 0 < k → k < length removed → total (first k removed) < 7)
cleanup-oldest_example = cleanup-oldest three_files 7

-- A round over a threshold of 12, of which 9 are kept, of a folder whose own entry has 1.
cleanup_round-le_example :
    let left = cleanup_round 12 9 true true 1 three_files (all_ok (sort_by_time three_files)) in
    ((left ≡ []) ⊎ (calculate_dir_size 1 left ≤ 12))
    × ((12 < calculate_dir_size 1 three_files) ⊎ (left ≡ three_files))
    × ((oks : List Bool) → cleanup_round 12 9 true false 1 three_files oks ≡ three_files)
cleanup_round-le_example = cleanup_round-le 12 9 1 three_files (omega arith)
