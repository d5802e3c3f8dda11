-- ===== src/Cmd/Get.antt =====
-- cmd/bscp/get.go: what is fetched by several goroutines, the output of files and key values, and the
-- destinations of a download.
pub mod Gathered
pub mod Distinct
mod Tests
use bscp_go.Prelude.{
  ℕ, zero, suc, Bool, true, false, Option, none, some, List, [], ◌∷◌, ◌++◌, map, leb, if◌then◌else◌,
  length, get_elem?, Text,
}
use bscp_go.Labels.{Map, lookup, put}

-- Stores at an index, which is in range.
abbrev pub set {ℓ} : {A : Type ℓ} → List A → ℕ → A → List A
set [] i v = []
set (x ∷ xs) zero v = v ∷ xs
set (x ∷ xs) (suc i) v = x ∷ set xs i v

module _ {A V : Type 0} (get : A → Option V) (items : List A) where
  -- The goroutines of `getfileContents` and `getKvValues`, in the order in which they end: the slots,
  -- and whether one failed.
  pub gather_from : List ℕ → Bool × List V → Bool × List V
  gather_from [] r = r
  gather_from (i ∷ order) (failed, slots) = elim (get_elem? items i) [
    | none ↦ gather_from order (failed, slots)
    | some a ↦ elim (get a) [
      | none ↦ gather_from order (true, slots)
      | some v ↦ gather_from order (failed, set slots i v)
    ]
  ]

abbrev pub blanks {ℓ κ} : {A : Type ℓ} {V : Type κ} → V → List A → List V
blanks v [] = []
blanks v (x ∷ xs) = v ∷ blanks v xs

-- `getfileContents` and `getKvValues`: `none` is an error, and `blank` the zero value.
pub gather : {A V : Type 0} → (A → Option V) → V → List A → List ℕ → Option (List V)
unfolding gather_from
gather get blank items order =
    let (failed, slots) = gather_from get items order (false, blanks blank items) in
    if failed then none else some slots

-- A file's path and name.
pub record FileItem : Type 0 where
  pub path : Text
  pub name : Text

-- The map from a name to the files with it, as `runDownloadFile` fills it.
pub file_names : List FileItem → Map (List FileItem) → Map (List FileItem)
file_names [] m = m
file_names (f ∷ fs) m =
    let old : List FileItem = elim (lookup f.name m) [ none ↦ [] | some files ↦ files ] in
    file_names fs (put f.name (old ++ f ∷ []) m)

-- The names that at least two files have.
pub same_files : Map (List FileItem) → List (List FileItem)
same_files [] = []
same_files ((name, files) ∷ m) =
    let rest = same_files m in if leb 2 (length files) then files ∷ rest else rest

-- How `runDownloadFile` ends before it saves: the folder is missing or none, nothing matches, files
-- have the same name, or the destinations of the files, below the folder.
pub data Download : Type 0 where
  no_folder not_a_folder pull_failed nothing_matched : Download
  names_same : List (List FileItem) → Download
  destinations : List (Option Text × Text) → Download

-- A destination: without the path if it is ignored.
abbrev pub destination : Bool → FileItem → Option Text × Text
destination true f = (none, f.name)
destination false f = (some f.path, f.name)

abbrev pub no_groups : List (List FileItem) → Bool
no_groups [] = true
no_groups (g ∷ gs) = false

-- `os.Stat` of the folder: `none` for an error, and whether it is a folder.
pub run_download_file : Bool → Option Bool → Option (List FileItem) → Download
run_download_file ignore_dir none release = no_folder
run_download_file ignore_dir (some false) release = not_a_folder
run_download_file ignore_dir (some true) none = pull_failed
run_download_file ignore_dir (some true) (some []) = nothing_matched
run_download_file ignore_dir (some true) (some (f ∷ fs)) =
    let files = f ∷ fs in
    let same = if ignore_dir then same_files (file_names files []) else [] in
    if no_groups same then destinations (map (destination ignore_dir) files) else names_same same
