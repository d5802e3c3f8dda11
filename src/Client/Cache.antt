-- ===== src/Client/Cache.antt =====
-- internal/cache/cache.go: the cache of files by their signature, and its cleanup; and client/types.go:
-- `SaveToFile` and `GetContent`, which use it.
pub mod Copies
pub mod Oldest
pub mod Rounds
mod Tests
use bscp_go.Prelude.{
  ℕ, ◌+◌, ◌-◌, Bool, true, false, not, ◌&&◌, Option, none, some, List, [], ◌∷◌, ltb, leb, ◌==◌,
  if◌then◌else◌, take, bytes_eq,
}

-- The content spec of a config item: its signature, by which the cache names it, and its size.
pub record Item : Type 0 where
  pub signature : List ℕ
  pub byte_size : ℕ

-- How the calls of the file system go: `Stat` with another error than that there is no file,
-- `FileSHA256`, `Open` and `ReadFile`, `OpenFile` of the target, and how much of a copy is written if
-- it fails.
pub record Disk : Type 0 where
  pub stat_ok : Bool
  pub hash_ok : Bool
  pub read_ok : Bool
  pub target_ok : Bool
  pub copied : Option ℕ

pub data Exists : Type 0 where
  yes_exists not_exists check_failed : Exists

-- The copy to the target: whether it is done, and the target's bytes.
pub copy : Disk → Option (List ℕ) → Option (List ℕ) → Bool × Option (List ℕ)
copy d none target = (false, target)
copy d (some bytes) target =
    if not d.read_ok
    then (false, target)
    else if not d.target_ok
    then (false, target)
    else elim d.copied [ none ↦ (true, some bytes) | some n ↦ (false, some (take n bytes)) ]

module _ (sha256 : List ℕ → List ℕ) where
  -- `checkFileCacheExists`, on the file that has the signature's name.
  pub check_file_cache_exists : Disk → Item → Option (List ℕ) → Exists
  check_file_cache_exists d ci file = if not d.stat_ok then check_failed else elim file [
    | none ↦ not_exists
    | some bytes ↦
        if not d.hash_ok
        then check_failed
        else if bytes_eq (sha256 bytes) ci.signature
        then yes_exists
        else not_exists
  ]

  -- `GetFileContent`: the bytes on a hit.
  pub get_file_content : Disk → Item → Option (List ℕ) → Option (List ℕ)
  unfolding check_file_cache_exists
  get_file_content d ci file = elim (check_file_cache_exists d ci file) [
    | yes_exists ↦ if d.read_ok then file else none
    | not_exists ↦ none
    | check_failed ↦ none
  ]

  -- `CopyToFile`: whether it hits, the cached file, and the target. `max_size` is the limit of a
  -- cached file; `download` is what a download to the cached file comes to: no error, and the file.
  pub copy_to_file :
      ℕ
      → Disk
      → Item
      → Bool × Option (List ℕ)
      → Option (List ℕ)
      → Option (List ℕ)
      → Bool × Option (List ℕ) × Option (List ℕ)
  unfolding check_file_cache_exists copy
  copy_to_file max_size d ci (download_ok, fetched) cached target =
      if ltb max_size ci.byte_size
      then (false, cached, target)
      else elim (check_file_cache_exists d ci cached) [
        | check_failed ↦ (false, cached, target)
        | yes_exists ↦ let (hit, target') = copy d cached target in (hit, cached, target')
        | not_exists ↦
            if not download_ok
            then (false, fetched, target)
            else let (hit, target') = copy d fetched target in (hit, fetched, target')
      ]

  -- `SaveToFile`: no error, the cached file, and the target. `remote` is what a download to the
  -- target comes to.
  unfoldable pub save_to_file :
      Bool
      → ℕ
      → Disk
      → Item
      → Bool × Option (List ℕ)
      → Bool × Option (List ℕ)
      → Option (List ℕ)
      → Option (List ℕ)
      → Bool × Option (List ℕ) × Option (List ℕ)
  unfolding copy_to_file
  save_to_file enable max_size d ci download remote cached target =
      let over_remote : Option (List ℕ) → Bool × Option (List ℕ) × Option (List ℕ) =
        λ c. (remote.0, c, remote.1) in
      if not enable
      then over_remote cached
      else let (hit, cached', target') = copy_to_file max_size d ci download cached target in
        if hit then (true, cached', target') else over_remote cached'

-- A file of the cache's folder: its name, its size and its time.
pub record FileInfo : Type 0 where
  pub name : List ℕ
  pub size : ℕ
  pub mod_time : ℕ

-- `sort.Slice` by time, as an insertion sort.
pub insert : FileInfo → List FileInfo → List FileInfo
insert f [] = f ∷ []
insert f (g ∷ gs) =
    let rest = insert f gs in if leb f.mod_time g.mod_time then f ∷ g ∷ gs else g ∷ rest

pub sort_by_time : List FileInfo → List FileInfo
unfolding insert
sort_by_time [] = []
sort_by_time (f ∷ fs) = insert f (sort_by_time fs)

-- `listFilesByModTime`: `none` when the folder, or the entry of some file, cannot be read.
pub list_files_by_mod_time : Bool → List FileInfo → Option (List FileInfo)
list_files_by_mod_time readable files = if readable then some (sort_by_time files) else none

-- The loop of `cleanupOldestFiles` over the files that were listed, with whether each removal works: the space left to free, and the
-- files left. At 0 the space is freed.
pub remove_oldest : List FileInfo → List Bool → ℕ → ℕ × List FileInfo
remove_oldest [] oks space = (space, [])
remove_oldest (f ∷ fs) [] space = (space, f ∷ fs)
remove_oldest (f ∷ fs) (ok ∷ oks) space =
    let left = if ok then space - f.size else space in
    let kept = λ (gs : List FileInfo). if ok then gs else f ∷ gs in
    let rest = remove_oldest fs oks left in
    if left == 0 then (0, kept fs) else (rest.0, kept (rest.1))

-- `calculateDirSize`: the size of the folder's own entry, and of its files.
pub calculate_dir_size : ℕ → List FileInfo → ℕ
calculate_dir_size own [] = own
calculate_dir_size own (f ∷ fs) = f.size + calculate_dir_size own fs

-- `cleanupOldestFiles`: the space left to free, and the files left. When the files cannot be listed the
-- loop has none to remove.
pub cleanup_oldest_files : Bool → List FileInfo → List Bool → ℕ → ℕ × List FileInfo
unfolding remove_oldest list_files_by_mod_time
cleanup_oldest_files readable files oks space = elim (list_files_by_mod_time readable files) [
  | none ↦ (space, files)
  | some listed ↦ remove_oldest listed oks space
]

-- A round of `AutoCleanupFileCache`, without its sleep: the files that are left. `measured` is whether
-- the sizes can be read, `readable` whether the files can be listed, `limit` the threshold and `keep`
-- its retained share, both in bytes.
pub cleanup_round : ℕ → ℕ → Bool → Bool → ℕ → List FileInfo → List Bool → List FileInfo
unfolding calculate_dir_size cleanup_oldest_files
cleanup_round limit keep measured readable own files oks =
    let current = calculate_dir_size own files in
    if measured && ltb limit current
    then (cleanup_oldest_files readable files oks (current - keep)).1
    else files
