-- ===== src/Release/Log.antt =====
-- internal/util/eventmeta/metadata.go: the files of records, one a line, to which each operation
-- appends and of which the last line counts. 10 is a line feed and 13 a carriage return.
pub mod RoundTrip
use bscp_go.Prelude.{
  ℕ, ◌+◌, Bool, not, Option, none, some, List, [], ◌∷◌, ◌++◌, ltb, ◌==◌, if◌then◌else◌, length,
  take,
}

pub data LogErr : Type 0 where
  path_empty data_empty mkdir_failed open_failed marshal_failed write_failed : LogErr
  read_failed unmarshal_failed : LogErr

-- `json.Marshal` and `json.Compact`, and `json.Unmarshal`.
pub record Codec {ℓ} (V : Type ℓ) : Type ℓ where
  pub marshal : V → Option (List ℕ)
  pub unmarshal : List ℕ → Option V

-- How the file system answers: whether the folder can be made, whether the file opens, and how many
-- bytes of the line are written, if not all.
pub record Fs : Type 0 where
  pub mkdir_ok : Bool
  pub open_ok : Bool
  pub written : Option ℕ

-- The bytes of the file, `none` where there is none.
abbrev pub File : Type 0
File = Option (List ℕ)

unfoldable pub content_of : File → List ℕ
content_of none = []
content_of (some bytes) = bytes

-- The last line that `bufio.Scanner` returns, `none` where a line is too long for it; `cur` is the
-- line so far, and `last` the last one.
pub drop_cr : List ℕ → List ℕ
drop_cr [] = []
drop_cr (b ∷ []) = if b == 13 then [] else b ∷ []
drop_cr (b ∷ c ∷ bs) = b ∷ drop_cr (c ∷ bs)

pub scan : List ℕ → List ℕ → List ℕ → Option (List ℕ)
unfolding drop_cr
scan [] cur last = if length cur == 0 then some last else some (drop_cr cur)
scan (b ∷ bs) cur last =
    let next_line = scan bs [] (drop_cr cur) in
    let same_line = scan bs (cur ++ (b ∷ [])) last in
    if b == 10 then next_line else if ltb 65535 (length cur + 1) then none else same_line

pub data Latest {ℓ} (V : Type ℓ) : Type ℓ where
  latest : V → Latest V
  no_file : Latest V
  broken : LogErr → Latest V

module _ {ℓ} {V : Type ℓ} (codec : Codec V) where
  -- The write of a line.
  pub write_line : Fs → File → List ℕ → Option LogErr × File
  unfolding content_of
  write_line fs file line = elim fs.written [
    | none ↦ (none, some (content_of file ++ line))
    | some n ↦ (some write_failed, some (content_of file ++ take n line))
  ]

  -- `RecordChangeEvent`: an error or `none`, and the file.
  pub record_change_event : Bool → Fs → File → V → Option LogErr × File
  unfolding content_of write_line
  record_change_event dir_empty fs file v =
      if dir_empty
      then (some path_empty, file)
      else if not fs.mkdir_ok
      then (some mkdir_failed, file)
      else if not fs.open_ok
      then (some open_failed, file)
      else elim (codec.marshal v) [
        | none ↦ (some marshal_failed, some (content_of file))
        | some text ↦ write_line fs file (text ++ (10 ∷ []))
      ]

  -- `AppendMetadataToFile`, whose metadata may be nil.
  pub append_metadata_to_file : Bool → Fs → File → Option V → Option LogErr × File
  unfolding record_change_event
  append_metadata_to_file dir_empty fs file none =
      if dir_empty then (some path_empty, file) else (some data_empty, file)
  append_metadata_to_file dir_empty fs file (some v) = record_change_event dir_empty fs file v

  pub parse_last : Option (List ℕ) → Latest V
  parse_last none = broken read_failed
  parse_last (some line) = elim (codec.unmarshal line) [
    | none ↦ broken unmarshal_failed
    | some v ↦ latest v
  ]

  -- `GetLatestMetadataFromFile` and `GetLatestChangeEventFromFile`: `opens` tells whether a file
  -- that exists can be opened.
  pub get_latest : (dir_empty opens : Bool) → File → Latest V
  unfolding parse_last scan
  get_latest dir_empty opens file = if dir_empty then broken data_empty else elim file [
    | none ↦ no_file
    | some bytes ↦ if opens then parse_last (scan bytes [] []) else broken open_failed
  ]
