-- ===== src/Cmd/Get/Distinct.antt =====
-- The destinations of a download with `--ignore-dir`.
use bscp_go.Labels.Priority.{lookup-put, Lacks-lookup, put-IsMap}
use bscp_go.Prelude.{
  ℕ, ◌+◌, ◌<◌, ◌≡◌, refl, sym, Bool, true, false, not, ◌&&◌, ◌||◌, none, some, List, [], ◌∷◌, ◌++◌,
  map, arith, ◌==◌, if◌then◌else◌, length, length-append, bytes_eq, bytes_eq_sound, bytes_eq_refl,
  Text,
}
use bscp_go.Labels.{Map, lookup, put, IsMap}
use bscp_go.Cmd.Get.{
  FileItem, file_names, same_files, names_same, destinations, destination, no_groups,
  run_download_file,
}

-- How many files have the name.
abbrev pub with_name : Text → List FileItem → ℕ
with_name k [] = 0
with_name k (f ∷ fs) = (if bytes_eq k f.name then 1 else 0) + with_name k fs

-- No name is that of two files.
abbrev pub names_differ : List FileItem → Bool
names_differ [] = true
names_differ (f ∷ fs) = with_name f.name fs == 0 && names_differ fs

abbrev group_size : Text → Map (List FileItem) → ℕ
group_size k m = elim (lookup k m) [ none ↦ 0 | some files ↦ length files ]

group_size-file_names :
    (k : Text) (fs : List FileItem) (m : Map (List FileItem))
    → group_size k (file_names fs m) ≡ group_size k m + with_name k fs
unfolding file_names
group_size-file_names k [] m = omega arith
group_size-file_names k (f ∷ fs) m =
    let old : List FileItem = elim (lookup f.name m) [ none ↦ [] | some files ↦ files ] in
    ground (
      arith,
      group_size-file_names k fs (put f.name (old ++ f ∷ []) m),
      lookup-put k f.name (old ++ f ∷ []) m,
      bytes_eq_sound k f.name,
      length-append old (f ∷ []),
    )

small_groups :
    (m : Map (List FileItem)) (k : Text) → no_groups (same_files m) ≡ true → group_size k m < 2
unfolding same_files lookup
small_groups [] k h = omega arith
small_groups ((name, files) ∷ m) k h = ground (arith, small_groups m k)

no_groups_small :
    (m : Map (List FileItem))
    → IsMap m
    → ((k : Text) → group_size k m < 2)
    → no_groups (same_files m) ≡ true
unfolding same_files lookup
no_groups_small [] d h = refl
no_groups_small ((name, files) ∷ m) d h = ground (
  arith,
  h name,
  bytes_eq_refl name,
  no_groups_small m d.1 (λ k. ground (arith, h k, bytes_eq_sound k name, Lacks-lookup name m d.0)),
)

names_differ-lt : (fs : List FileItem) → ((k : Text) → with_name k fs < 2) → names_differ fs ≡ true
names_differ-lt [] h = refl
names_differ-lt (f ∷ fs) h =
    ground (arith, h f.name, bytes_eq_refl f.name, names_differ-lt fs (λ k. ground (arith, h k)))

with_name-lt : (fs : List FileItem) (k : Text) → names_differ fs ≡ true → with_name k fs < 2
with_name-lt [] k h = omega arith
with_name-lt (f ∷ fs) k h = ground (arith, with_name-lt fs k, bytes_eq_sound k f.name)

file_names-IsMap :
    (fs : List FileItem) (m : Map (List FileItem)) → IsMap m → IsMap (file_names fs m)
unfolding file_names
file_names-IsMap [] m d = d
file_names-IsMap (f ∷ fs) m d = file_names-IsMap fs _ (put-IsMap f.name _ m d)

bool_eq : (a b : Bool) → (a ≡ true → b ≡ true) → (b ≡ true → a ≡ true) → a ≡ b
bool_eq true b f g = sym (f refl)
bool_eq false true f g = g refl
bool_eq false false f g = refl

group_size-none : (k : Text) → group_size k [] ≡ 0
unfolding lookup
group_size-none k = refl

-- The names are found to be the same exactly when two files have one name.
no_groups-names_differ :
    (fs : List FileItem) → no_groups (same_files (file_names fs [])) ≡ names_differ fs
no_groups-names_differ fs =
    let size : (k : Text) → group_size k (file_names fs []) ≡ with_name k fs =
      λ k. omega (arith, group_size-file_names k fs [], group_size-none k) in
    bool_eq _ _
      (λ h. names_differ-lt fs (λ k. omega (arith, size k, small_groups (file_names fs []) k h)))
      (λ h.
        no_groups_small (file_names fs []) (file_names-IsMap fs [] tt)
          (λ k. omega (arith, size k, with_name-lt fs k h)))

-- When the folder is there and some files match: if the paths are kept, or no two files have one
-- name, the destinations are those of all these files, one for each and in their order, with its
-- path unless paths are ignored. Else nothing has a destination, and the download ends with the
-- groups of at least two files of one name.
pub run_download_file-destinations :
    (ignore_dir : Bool) (f : FileItem) (fs : List FileItem)
    → run_download_file ignore_dir (some true) (some (f ∷ fs)) ≡ (
        if not ignore_dir || names_differ (f ∷ fs)
        then destinations (map (destination ignore_dir) (f ∷ fs))
        else names_same (same_files (file_names (f ∷ fs) [])))
unfolding run_download_file
run_download_file-destinations true f fs = rw (no_groups-names_differ (f ∷ fs)) refl
run_download_file-destinations false f fs = refl
