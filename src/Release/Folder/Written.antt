-- ===== src/Release/Folder/Written.antt =====
-- When an update succeeds, the folder has the release's files.
use bscp_go.Release.Folder.Kept.{store-kept}
use bscp_go.Client.Cache.{Item, Disk, Exists, yes_exists, not_exists, check_failed}
use bscp_go.Client.Cache.Copies.{Signed, Delivers, save_to_file-signed}
use bscp_go.Release.Updates.{UpdateErr}
use bscp_go.Prelude.{
  ℕ, ◌≡◌, refl, ◌∙◌, ◌⊎◌, inl, inr, Bool, true, false, not, ◌&&◌, Option, none, some, List, [], ◌∷◌,
  arith, if◌then◌else◌, Bool-cases, Option-cases, bytes_eq, bytes_eq_sound, bytes_eq_refl, Text,
}
use bscp_go.Labels.{Map, lookup}
use bscp_go.Labels.Priority.{lookup-put}
use bscp_go.Release.Breaks.{convert_text_line_break}
use bscp_go.Release.Folder.{
  Wanted, Meets, Folders, put_file, is_set, convert_file, check_file_exists, fetch_file, store_file,
  store_files, is_place,
}

-- What the folder is to have of a file with these bytes.
abbrev pub final : Wanted → List ℕ → Option (List ℕ)
final w bytes =
    if is_set w.line_break then convert_text_line_break w.line_break bytes else some bytes

-- No two files have one path.
abbrev pub places_differ : List (Meets × Wanted) → Bool
places_differ [] = true
places_differ ((m, w) ∷ runs) = not (is_place w.place runs) && places_differ runs

Exists-cases : (x : Exists) → (x ≡ yes_exists) ⊎ ((x ≡ not_exists) ⊎ (x ≡ check_failed))
Exists-cases yes_exists = inl refl
Exists-cases not_exists = inr (inl refl)
Exists-cases check_failed = inr (inr refl)

module _ (sha256 : List ℕ → List ℕ) where
  -- The file at the path has bytes with the signature, after their conversion.
  abbrev pub IsWritten : Wanted → Map (List ℕ) → Type 0
  IsWritten w files =
      (bytes : List ℕ) × (content : List ℕ) × (sha256 bytes ≡ w.item.signature)
      × (final w bytes ≡ some content)
      × (lookup w.place files ≡ some content)

  -- The file at the path has bytes with the signature.
  abbrev HasBytes : Wanted → Folders → Type 0
  HasBytes w s =
      (bytes : List ℕ) × (sha256 bytes ≡ w.item.signature) × (lookup w.place s.files ≡ some bytes)

  convert-IsWritten :
      (m : Meets) (w : Wanted) (s : Folders)
      → HasBytes w s
      → (convert_file m w s).0 ≡ none
      → IsWritten w (convert_file m w s).1.files
  unfolding convert_file
  convert-IsWritten m w s (bytes, signed, there) h = elim (Bool-cases (is_set w.line_break)) [
    | inr off ↦ rw off (bytes, bytes, signed, refl, there)
    | inl on ↦ elim (Option-cases (convert_text_line_break w.line_break bytes)) [
      | inl bad ↦ absurd (ground arith)
      | inr (content, good) ↦ (
        bytes,
        content,
        signed,
        ground arith,
        ground (arith, lookup-put w.place w.place content s.files, bytes_eq_refl w.place),
      )
    ]
  ]

  check-Signed :
      (d : Disk) (ci : Item) (file : Option (List ℕ))
      → check_file_exists sha256 d ci file ≡ yes_exists
      → Signed sha256 ci file
  unfolding check_file_exists
  check-Signed d ci none h = absurd (ground arith)
  check-Signed d ci (some bytes) h = elim (Bool-cases (bytes_eq (sha256 bytes) ci.signature)) [
    | inl same ↦ bytes_eq_sound (sha256 bytes) ci.signature same
    | inr other ↦ absurd (ground arith)
  ]

  Signed-HasBytes :
      (w : Wanted) (s : Folders) → Signed sha256 w.item (lookup w.place s.files) → HasBytes w s
  Signed-HasBytes w s h = elim (Option-cases (lookup w.place s.files)) [
    | inl e ↦ absurd (rw e at h)
    | inr (bytes, e) ↦ (bytes, rw e at h, e)
  ]

  -- Both downloads of a file leave a file with its signature when they report no error.
  abbrev pub AreHonest : Meets → Wanted → Type 0
  AreHonest m w = Delivers sha256 w.item m.download × Delivers sha256 w.item m.remote

  put_file-HasBytes :
      (w : Wanted) (o : Option (List ℕ)) (s : Folders)
      → Signed sha256 w.item o
      → HasBytes w (record s { files = put_file w.place o s.files })
  put_file-HasBytes w none s h = absurd h
  put_file-HasBytes w (some bytes) s h =
      (bytes, h, ground (arith, lookup-put w.place w.place bytes s.files, bytes_eq_refl w.place))

  fetch-HasBytes :
      (m : Meets) (w : Wanted) (s : Folders)
      → AreHonest m w
      → (fetch_file sha256 m w s).0 ≡ true
      → HasBytes w (fetch_file sha256 m w s).1
  unfolding fetch_file
  fetch-HasBytes m w s (good, good') h = put_file-HasBytes w _ s (
      save_to_file-signed sha256 m.enable m.max_size m.disk w.item m.download m.remote
        (lookup w.item.signature s.cached) (lookup w.place s.files) good good' h)

  store-IsWritten :
      (m : Meets) (w : Wanted) (s : Folders)
      → AreHonest m w
      → (store_file sha256 m w s).0 ≡ none
      → IsWritten w (store_file sha256 m w s).1.files
  unfolding store_file
  store-IsWritten m w s good h = elim (Bool-cases m.mkdir_ok) [
    | inr off ↦ absurd (cc (rw (off, store_file) at h))
    | inl on ↦
        elim (Exists-cases (check_file_exists sha256 m.disk w.item (lookup w.place s.files))) [
          | inr (inr e) ↦ absurd (cc (rw (on, e, store_file) at h))
          | inl e ↦
              rw (on, e, store_file)
                (convert-IsWritten m w s
                  (Signed-HasBytes w s (check-Signed m.disk w.item (lookup w.place s.files) e))
                  (rw (on, e, store_file) at h))
          | inr (inl e) ↦ elim (Bool-cases (fetch_file sha256 m w s).0) [
            | inr lost ↦ absurd (cc (rw (on, e, lost, store_file) at h))
            | inl done ↦
                rw (on, e, done, store_file)
                  (convert-IsWritten m w (fetch_file sha256 m w s).1
                    (fetch-HasBytes m w s good done) (rw (on, e, done, store_file) at h))
          ]
        ]
  ]

  -- Every download of the files that are updated is honest, and every file has a path of its own.
  abbrev pub AllHonest : List (Meets × Wanted) → Type 0
  AllHonest [] = Unit {0}
  AllHonest ((m, w) ∷ runs) = AreHonest m w × AllHonest runs

  abbrev pub AllWritten : List (Meets × Wanted) → Map (List ℕ) → Type 0
  AllWritten [] files = Unit {0}
  AllWritten ((m, w) ∷ runs) files = IsWritten w files × AllWritten runs files

  error_stays :
      (runs : List (Meets × Wanted)) (e : UpdateErr) (s : Folders)
      → (store_files sha256 runs (some e) s).0 ≡ some e
  unfolding store_files
  error_stays [] e s = refl
  error_stays ((m, w) ∷ runs) e s = error_stays runs e (store_file sha256 m w s).1

  pub moved :
      (w : Wanted) (files files' : Map (List ℕ))
      → lookup w.place files' ≡ lookup w.place files
      → IsWritten w files
      → IsWritten w files'
  moved w files files' same (bytes, content, signed, converted, there) =
      (bytes, content, signed, converted, same ∙ there)

  store_files_lem :
      (runs : List (Meets × Wanted)) (s : Folders)
      → AllHonest runs
      → places_differ runs ≡ true
      → (store_files sha256 runs none s).0 ≡ none
      → AllWritten runs (store_files sha256 runs none s).1.files
        × ((j : Text)
            → is_place j runs ≡ false
            → lookup j (store_files sha256 runs none s).1.files ≡ lookup j s.files)
  unfolding store_files
  store_files_lem [] s good d h = (tt, λ j o. refl)
  store_files_lem ((m, w) ∷ runs) s good d h = elim (Option-cases (store_file sha256 m w s).0) [
    | inr (e, f) ↦
        absurd (cc (rw (f, store_files) at h, error_stays runs e (store_file sha256 m w s).1))
    | inl f ↦
        let s' = (store_file sha256 m w s).1 in
        let (rest, kept) =
          store_files_lem runs s' good.1 (ground arith) (rw (f, store_files) at h) in
        rw (f, store_files)
          (
            (
              moved w s'.files (store_files sha256 runs none s').1.files
                  (kept w.place (ground arith)) (store-IsWritten m w s good.0 f),
              rest,
            ),
            λ j o. kept j (ground arith) ∙ store-kept sha256 m w s j (ground arith),
          )
  ]

  -- If every file has a path of its own, the downloads are honest and no goroutine fails, then in
  -- whatever order they end, every file of the release has at its path the bytes of its signature,
  -- with the line breaks converted as set, and every other file is as it was.
  pub store_files-AllWritten :
      (runs : List (Meets × Wanted)) (s : Folders)
      → AllHonest runs
      → places_differ runs ≡ true
      → (store_files sha256 runs none s).0 ≡ none
      → AllWritten runs (store_files sha256 runs none s).1.files
        × ((j : Text)
            → (is_place j runs ≡ true)
              ⊎ (lookup j (store_files sha256 runs none s).1.files ≡ lookup j s.files))
  store_files-AllWritten runs s good d h =
      let (written, kept) = store_files_lem runs s good d h in
      (written, λ j. elim (Bool-cases (is_place j runs)) [ inl e ↦ inl e | inr e ↦ inr (kept j e) ])
