-- ===== src/Release/Folder/Kept.antt =====
-- An update keeps what it does not write: the files at other paths.
use bscp_go.Prelude.{
  ℕ, ◌≡◌, refl, inl, inr, false, Option, none, some, List, arith, Option-cases, bytes_eq, Text,
}
use bscp_go.Labels.{Map, lookup}
use bscp_go.Labels.Priority.{lookup-put}
use bscp_go.Release.Breaks.{convert_text_line_break}
use bscp_go.Release.Folder.{Wanted, Meets, Folders, put_file, convert_file, fetch_file, store_file}

module _ (sha256 : List ℕ → List ℕ) where
  convert-kept :
      (m : Meets) (w : Wanted) (s : Folders) (j : Text)
      → bytes_eq j w.place ≡ false
      → lookup j (convert_file m w s).1.files ≡ lookup j s.files
  unfolding convert_file
  convert-kept m w s j other = elim (Option-cases (lookup w.place s.files)) [
    | inl e ↦ ground arith
    | inr (bytes, e) ↦ elim (Option-cases (convert_text_line_break w.line_break bytes)) [
      | inl f ↦ ground arith
      | inr (content, f) ↦ ground (arith, lookup-put j w.place content s.files)
    ]
  ]

  put_file-kept :
      (j place : Text) (o : Option (List ℕ)) (m : Map (List ℕ))
      → bytes_eq j place ≡ false
      → lookup j (put_file place o m) ≡ lookup j m
  put_file-kept j place none m other = refl
  put_file-kept j place (some bytes) m other = ground (arith, lookup-put j place bytes m)

  fetch-kept :
      (m : Meets) (w : Wanted) (s : Folders) (j : Text)
      → bytes_eq j w.place ≡ false
      → lookup j (fetch_file sha256 m w s).1.files ≡ lookup j s.files
  unfolding fetch_file
  fetch-kept m w s j other = put_file-kept j w.place _ s.files other

  pub store-kept :
      (m : Meets) (w : Wanted) (s : Folders) (j : Text)
      → bytes_eq j w.place ≡ false
      → lookup j (store_file sha256 m w s).1.files ≡ lookup j s.files
  unfolding store_file
  store-kept m w s j other = ground (
    arith,
    convert-kept m w s j other,
    convert-kept m w (fetch_file sha256 m w s).1 j other,
    fetch-kept m w s j other,
  )
