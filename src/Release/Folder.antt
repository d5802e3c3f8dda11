-- ===== src/Release/Folder.antt =====
-- client/types.go: `updateFiles` on the folder of the files and the folder of the cache, with
-- `checkFileExists`, `SaveToFile` and the conversion of line breaks. Release/Updates has its counters.
pub mod Kept
pub mod Written
pub mod Again
pub mod Tests
use bscp_go.Prelude.{
  ℕ, Bool, true, false, not, ◌||◌, Option, none, some, List, [], ◌∷◌, if◌then◌else◌, bytes_eq, Text,
}
use bscp_go.Labels.{Map, lookup, put}
use bscp_go.Client.Cache.{Item, Disk, Exists, yes_exists, not_exists, check_failed, save_to_file}
use bscp_go.Release.Breaks.{LineBreak, unset, convert_text_line_break}
use bscp_go.Release.Updates.{
  UpdateErr, new_folder_failed, check_file_exists_failed, save_failed, convert_failed,
}

-- A file that the release wants: its path below the folder, its signature and size, and the line
-- break to convert it to, `unset` for a file that is not a text or has no line break set.
pub record Wanted : Type 0 where
  pub place : Text
  pub item : Item
  pub line_break : LineBreak

-- What the goroutine of a file meets: the calls of the file system, the settings of the cache, what a
-- download to the cached file and one to the target come to, and whether a conversion can read and
-- write the file.
pub record Meets : Type 0 where
  pub mkdir_ok : Bool
  pub disk : Disk
  pub enable : Bool
  pub max_size : ℕ
  pub download : Bool × Option (List ℕ)
  pub remote : Bool × Option (List ℕ)
  pub convert_ok : Bool

-- The contents of the files, by their path, and of the cached files, by their signature.
pub record Folders : Type 0 where
  pub files : Map (List ℕ)
  pub cached : Map (List ℕ)

abbrev pub put_file : Text → Option (List ℕ) → Map (List ℕ) → Map (List ℕ)
put_file place none m = m
put_file place (some bytes) m = put place bytes m

abbrev pub is_set : LineBreak → Bool
is_set unset = false
is_set _ = true

-- The conversion of the line breaks.
unfoldable pub convert_file : Meets → Wanted → Folders → Option UpdateErr × Folders
convert_file m w s =
    let failed : Option UpdateErr × Folders = (some convert_failed, s) in
    if not (is_set w.line_break)
    then (none, s)
    else if not m.convert_ok
    then failed
    else elim (lookup w.place s.files) [
      | none ↦ failed
      | some bytes ↦ elim (convert_text_line_break w.line_break bytes) [
        | none ↦ failed
        | some converted ↦ (none, record s { files = put w.place converted s.files })
      ]
    ]

module _ (sha256 : List ℕ → List ℕ) where
  -- `checkFileExists`, on the file at the path.
  unfoldable pub check_file_exists : Disk → Item → Option (List ℕ) → Exists
  check_file_exists d ci file = if not d.stat_ok then check_failed else elim file [
    | none ↦ not_exists
    | some bytes ↦
        if not d.hash_ok
        then check_failed
        else if bytes_eq (sha256 bytes) ci.signature
        then yes_exists
        else not_exists
  ]

  -- `SaveToFile` of the file.
  unfoldable pub fetch_file : Meets → Wanted → Folders → Bool × Folders
  fetch_file m w s =
      let saved =
        save_to_file sha256 m.enable m.max_size m.disk w.item m.download m.remote
          (lookup w.item.signature s.cached) (lookup w.place s.files) in
      (
        saved.0,
        record {
          files = put_file w.place saved.2 s.files;
          cached = put_file w.item.signature saved.1 s.cached;
        },
      )

  -- The goroutine of a file.
  unfoldable pub store_file : Meets → Wanted → Folders → Option UpdateErr × Folders
  store_file m w s =
      let (fetched, s') = fetch_file m w s in
      if not m.mkdir_ok
      then (some new_folder_failed, s)
      else elim (check_file_exists m.disk w.item (lookup w.place s.files)) [
        | check_failed ↦ (some check_file_exists_failed, s)
        | yes_exists ↦ convert_file m w s
        | not_exists ↦ if fetched then convert_file m w s' else (some save_failed, s')
      ]

  -- The goroutines in the order in which they end; the first error is the group's.
  unfoldable pub store_files :
      List (Meets × Wanted) → Option UpdateErr → Folders → Option UpdateErr × Folders
  store_files [] e s = (e, s)
  store_files ((m, w) ∷ runs) e s =
      let (e', s') = store_file m w s in
      let first : Option UpdateErr = elim e [ none ↦ e' | some x ↦ some x ] in
      store_files runs first s'

-- Whether a file of the release has the path.
abbrev pub is_place : Text → List (Meets × Wanted) → Bool
is_place j [] = false
is_place j ((m, w) ∷ runs) = bytes_eq j w.place || is_place j runs
