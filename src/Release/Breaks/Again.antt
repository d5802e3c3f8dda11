-- ===== src/Release/Breaks/Again.antt =====
-- `ConvertTextLineBreak` can run again.
use mathlib.Core.Path.{subst}
use bscp_go.Prelude.{
  ℕ, ◌≡◌, refl, sym, ap, ◌∙◌, ◌≢◌, inl, inr, true, false, Option, none, some, List, [], ◌∷◌, arith,
  ◌==◌, Bool-cases, Option-cases,
}
use bscp_go.Release.Breaks.{
  LineBreak, unset, lf, crlf, cr, other_break, crlf_to_lf, cr_to_lf, normalize, replace_lf,
  target_line_break, convert_text_line_break,
}

abbrev NoCr : List ℕ → Type 0
NoCr [] = Unit
NoCr (b ∷ bs) = (b ≢ 13) × NoCr bs

cr_to_lf-NoCr : (bs : List ℕ) → NoCr (cr_to_lf bs)
unfolding cr_to_lf
cr_to_lf-NoCr [] = tt
cr_to_lf-NoCr (b ∷ bs) = (λ e. absurd (ground arith), cr_to_lf-NoCr bs)

normalize-NoCr : (bs : List ℕ) → NoCr (normalize bs)
unfolding normalize
normalize-NoCr bs = cr_to_lf-NoCr (crlf_to_lf bs)

normalize-plain : (b : ℕ) (bs : List ℕ) → b ≢ 13 → normalize (b ∷ bs) ≡ b ∷ normalize bs
unfolding normalize crlf_to_lf cr_to_lf
normalize-plain b [] n = ground arith
normalize-plain b (c ∷ bs) n =
    let plain : (b == 13) ≡ false = ground arith in rw (plain, plain) refl

abbrev NoLfFirst : List ℕ → Type 0
NoLfFirst [] = Unit
NoLfFirst (b ∷ bs) = b ≢ 10

normalize-cr : (bs : List ℕ) → NoLfFirst bs → normalize (13 ∷ bs) ≡ 10 ∷ normalize bs
unfolding normalize crlf_to_lf cr_to_lf
normalize-cr [] h = refl
normalize-cr (c ∷ bs) h = let plain : (c == 10) ≡ false = ground arith in rw plain refl

normalize-crlf : (bs : List ℕ) → normalize (13 ∷ 10 ∷ bs) ≡ 10 ∷ normalize bs
unfolding normalize crlf_to_lf cr_to_lf
normalize-crlf bs = refl

cr_form-NoLfFirst : (bs : List ℕ) → NoCr bs → NoLfFirst (replace_lf (13 ∷ []) bs)
unfolding replace_lf
cr_form-NoLfFirst [] h = tt
cr_form-NoLfFirst (b ∷ bs) (n, h) = elim (Bool-cases (b == 10)) [
  | inl break ↦ rw break (λ e. absurd (omega arith))
  | inr plain ↦ rw plain (λ e. absurd (ground arith))
]

normalize-nil : normalize [] ≡ []
unfolding normalize
normalize-nil = refl

-- A text without CR, written with one of the three line breaks, is normalized to itself.
abbrev Form : List ℕ → Type 0
Form target = (bs : List ℕ) → NoCr bs → normalize (replace_lf target bs) ≡ bs

ten : (b : ℕ) → (b == 10) ≡ true → 10 ≡ b
ten b h = ground arith

lf-Form : Form (10 ∷ [])
unfolding replace_lf
lf-Form [] h = normalize-nil
lf-Form (b ∷ bs) (n, h) = elim (Bool-cases (b == 10)) [
  | inl break ↦ rw break (
      normalize-plain 10 (replace_lf (10 ∷ []) bs) (λ e. absurd (omega arith))
      ∙ (ap (λ (l : List ℕ). 10 ∷ l) (lf-Form bs h) ∙ ap (λ (x : ℕ). x ∷ bs) (ten b break)))
  | inr plain ↦
      rw plain
        (normalize-plain b (replace_lf (10 ∷ []) bs) n ∙ ap (λ (l : List ℕ). b ∷ l) (lf-Form bs h))
]

crlf-Form : Form (13 ∷ 10 ∷ [])
unfolding replace_lf
crlf-Form [] h = normalize-nil
crlf-Form (b ∷ bs) (n, h) = elim (Bool-cases (b == 10)) [
  | inl break ↦ rw break (
      normalize-crlf (replace_lf (13 ∷ 10 ∷ []) bs)
      ∙ (ap (λ (l : List ℕ). 10 ∷ l) (crlf-Form bs h) ∙ ap (λ (x : ℕ). x ∷ bs) (ten b break)))
  | inr plain ↦ rw plain (
      normalize-plain b (replace_lf (13 ∷ 10 ∷ []) bs) n
      ∙ ap (λ (l : List ℕ). b ∷ l) (crlf-Form bs h))
]

cr-Form : Form (13 ∷ [])
unfolding replace_lf
cr-Form [] h = normalize-nil
cr-Form (b ∷ bs) (n, h) = elim (Bool-cases (b == 10)) [
  | inl break ↦ rw break (
      normalize-cr (replace_lf (13 ∷ []) bs) (cr_form-NoLfFirst bs h)
      ∙ (ap (λ (l : List ℕ). 10 ∷ l) (cr-Form bs h) ∙ ap (λ (x : ℕ). x ∷ bs) (ten b break)))
  | inr plain ↦
      rw plain
        (normalize-plain b (replace_lf (13 ∷ []) bs) n ∙ ap (λ (l : List ℕ). b ∷ l) (cr-Form bs h))
]

some_eq : (xs ys : List ℕ) → some xs ≡ some ys → xs ≡ ys
some_eq xs ys e = ap (λ (o : Option (List ℕ)). elim o [ none ↦ xs | some zs ↦ zs ]) e

target-Form :
    (line_break : LineBreak) (target : List ℕ)
    → target_line_break line_break ≡ some target
    → Form target
unfolding target_line_break
target-Form unset target e = subst Form (some_eq (10 ∷ []) target e) lf-Form
target-Form lf target e = subst Form (some_eq (10 ∷ []) target e) lf-Form
target-Form crlf target e = subst Form (some_eq (13 ∷ 10 ∷ []) target e) crlf-Form
target-Form cr target e = subst Form (some_eq (13 ∷ []) target e) cr-Form
target-Form other_break target e = absurd (grind arith)

-- Whatever line breaks a text has: when a conversion of it succeeds, then another conversion of
-- what was written, to the same or another line break, writes what it would of the text itself, and
-- fails as it would.
pub convert-again :
    (line_break line_break' : LineBreak) (content content' : List ℕ)
    → convert_text_line_break line_break content ≡ some content'
    → convert_text_line_break line_break' content' ≡ convert_text_line_break line_break' content
unfolding convert_text_line_break
convert-again line_break line_break' content content' h =
    elim (Option-cases (target_line_break line_break)) [
      | inl none_ ↦ absurd (ground arith)
      | inr (target, e) ↦
          let wrote : replace_lf target (normalize content) ≡ content' = ground arith in
          let same : normalize content' ≡ normalize content =
            ap normalize (sym wrote)
            ∙ target-Form line_break target e (normalize content) (normalize-NoCr content) in
          ap
            (λ (n : List ℕ). elim (target_line_break line_break') as (λ o. Option (List ℕ)) [
              | none ↦ none
              | some target' ↦ some (replace_lf target' n)
            ])
            same
    ]
