-- ===== src/Release/Breaks/Tests.antt =====
-- A text with three kinds of line breaks, converted to CRLF and then to CR.
use bscp_go.Prelude.{ℕ, ◌≡◌, refl, some, List, [], ◌∷◌}
use bscp_go.Release.Breaks.Again.{convert-again}
use bscp_go.Release.Breaks.{
  crlf, cr, crlf_to_lf, cr_to_lf, normalize, replace_lf, target_line_break, convert_text_line_break,
}

abbrev mixed_text : List ℕ
mixed_text = 97 ∷ 10 ∷ 13 ∷ 98 ∷ 13 ∷ 10 ∷ []

abbrev crlf_text : List ℕ
crlf_text = 97 ∷ 13 ∷ 10 ∷ 13 ∷ 10 ∷ 98 ∷ 13 ∷ 10 ∷ []

mixed-crlf : convert_text_line_break crlf mixed_text ≡ some crlf_text
unfolding convert_text_line_break normalize crlf_to_lf cr_to_lf replace_lf target_line_break
mixed-crlf = refl

convert-again_example : convert_text_line_break cr crlf_text ≡ convert_text_line_break cr mixed_text
convert-again_example = convert-again crlf cr mixed_text crlf_text mixed-crlf
