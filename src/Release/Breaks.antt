-- ===== src/Release/Breaks.antt =====
-- internal/util/file.go: `ConvertTextLineBreak`, on the bytes of the file; 10 is LF and 13 is CR.
pub mod Again
mod Tests
use bscp_go.Prelude.{ℕ, ◌&&◌, Option, none, some, List, [], ◌∷◌, ◌++◌, ◌==◌, if◌then◌else◌}

pub data LineBreak : Type 0 where
  unset lf crlf cr other_break : LineBreak

-- `ReplaceAll` of CR LF by LF.
pub crlf_to_lf : List ℕ → List ℕ
crlf_to_lf [] = []
crlf_to_lf (b ∷ []) = b ∷ []
crlf_to_lf (b ∷ c ∷ bs) =
    let both = crlf_to_lf bs in
    let one = crlf_to_lf (c ∷ bs) in if (b == 13) && (c == 10) then 10 ∷ both else b ∷ one

-- `ReplaceAll` of CR by LF.
pub cr_to_lf : List ℕ → List ℕ
cr_to_lf [] = []
cr_to_lf (b ∷ bs) = (if b == 13 then 10 else b) ∷ cr_to_lf bs

pub normalize : List ℕ → List ℕ
unfolding crlf_to_lf cr_to_lf
normalize content = cr_to_lf (crlf_to_lf content)

-- `ReplaceAll` of LF.
unfoldable pub replace_lf : List ℕ → List ℕ → List ℕ
replace_lf target [] = []
replace_lf target (b ∷ bs) = (if b == 10 then target else b ∷ []) ++ replace_lf target bs

unfoldable pub target_line_break : LineBreak → Option (List ℕ)
target_line_break unset = some (10 ∷ [])
target_line_break lf = some (10 ∷ [])
target_line_break crlf = some (13 ∷ 10 ∷ [])
target_line_break cr = some (13 ∷ [])
target_line_break other_break = none

-- The bytes written, `none` for an invalid line break, with which nothing is written.
unfoldable pub convert_text_line_break : LineBreak → List ℕ → Option (List ℕ)
unfolding normalize replace_lf target_line_break
convert_text_line_break line_break content = elim (target_line_break line_break) [
  | none ↦ none
  | some target ↦ some (replace_lf target (normalize content))
]
