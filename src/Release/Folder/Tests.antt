-- ===== src/Release/Folder/Tests.antt =====
-- An update of two files, of which one is in the folder and the other is fetched; the digest is the
-- length of a text.
use bscp_go.Prelude.{
  ℕ, refl, Bool, true, false, Option, none, some, List, [], ◌∷◌, arith, length, Text, codes,
}
use bscp_go.Release.Breaks.{LineBreak, unset}
use bscp_go.Release.Folder.{Wanted, Meets, Folders}
use bscp_go.Release.Folder.Written.{AllHonest}

abbrev pub length_of : List ℕ → List ℕ
length_of bytes = length bytes ∷ []

abbrev meets : Option (List ℕ) → Bool → Meets
meets remote ok = record {
  mkdir_ok = true;
  disk = record { stat_ok = true; hash_ok = true; read_ok = true; target_ok = true; copied = none };
  enable = false;
  max_size = 0;
  download = (false, none);
  remote = (ok, remote);
  convert_ok = true;
}

abbrev wanted : LineBreak → Text → ℕ → Wanted
wanted line_break place n = record {
  place = place;
  item = record { signature = n ∷ []; byte_size = n };
  line_break = line_break;
}

-- The first file is to have the given line break.
abbrev pub two_files : LineBreak → List (Meets × Wanted)
two_files line_break =
    (meets (some (97 ∷ 10 ∷ [])) true, wanted line_break (codes "a") 2)
    ∷ (meets none false, wanted unset (codes "b") 1)
    ∷ []

abbrev pub old_folder : Folders
old_folder = record { files = (codes "b", 98 ∷ []) ∷ (codes "c", 99 ∷ []) ∷ []; cached = [] }

pub two_files-AllHonest : (line_break : LineBreak) → AllHonest length_of (two_files line_break)
two_files-AllHonest line_break = (
  ((λ e. absurd (grind arith)), (λ e. refl)),
  (((λ e. absurd (grind arith)), (λ e. absurd (grind arith))), tt),
)
