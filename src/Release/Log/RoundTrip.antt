-- ===== src/Release/Log/RoundTrip.antt =====
-- A record that was written last is the one that is read.
use bscp_go.Prelude.{
  ℕ, ◌+◌, ◌≤◌, ◌≡◌, refl, sym, ap, ◌∙◌, ◌≢◌, true, false, none, some, List, [], ◌∷◌, ◌++◌, arith,
  ltb, ◌==◌, length, append_nil, append_assoc, append_one, length-append,
}
use bscp_go.Release.Log.{
  Codec, Fs, File, content_of, drop_cr, scan, latest, write_line, record_change_event, parse_last,
  get_latest,
}

-- A text without a line feed or a carriage return.
abbrev pub IsLine : List ℕ → Type 0
IsLine [] = Unit
IsLine (b ∷ bs) = (b ≢ 10) × (b ≢ 13) × IsLine bs

drop_cr-IsLine : (t : List ℕ) → IsLine t → drop_cr t ≡ t
unfolding drop_cr
drop_cr-IsLine [] h = refl
drop_cr-IsLine (b ∷ []) (f, r, _) = ground arith
drop_cr-IsLine (b ∷ c ∷ bs) (f, r, h) = ap (λ (l : List ℕ). b ∷ l) (drop_cr-IsLine (c ∷ bs) h)

scan-line :
    (t rest cur last : List ℕ)
    → IsLine t
    → length cur + length t ≤ 65535
    → scan (t ++ (10 ∷ rest)) cur last ≡ scan rest [] (drop_cr (cur ++ t))
unfolding scan
scan-line [] rest cur last h l = rw (append_nil cur) refl
scan-line (b ∷ t) rest cur last (f, r, h) l =
    let plain : (b == 10) ≡ false = ground arith in
    let short : ltb 65535 (length cur + 1) ≡ false = ground arith in
    rw (plain, short)
      (scan-line t rest (cur ++ (b ∷ [])) last h (omega (arith, length-append cur (b ∷ [])))
        ∙ ap (λ (l : List ℕ). scan rest [] (drop_cr l)) (append_one cur t b))

-- Bytes of whole lines that the scanner reads: what comes after them is scanned from a line's start.
abbrev pub IsLog : List ℕ → Type 0
IsLog bytes =
    (rest last : List ℕ) → (last' : List ℕ) × (scan (bytes ++ rest) [] last ≡ scan rest [] last')

line-IsLog :
    (bytes t rest last : List ℕ)
    → IsLog bytes
    → IsLine t
    → length t ≤ 65535
    → scan ((bytes ++ (t ++ (10 ∷ []))) ++ rest) [] last ≡ scan rest [] t
line-IsLog bytes t rest last log h l =
    let (last', e) = log (t ++ (10 ∷ rest)) last in
    let same : (bytes ++ (t ++ (10 ∷ []))) ++ rest ≡ bytes ++ (t ++ (10 ∷ rest)) =
      append_assoc bytes (t ++ (10 ∷ [])) rest
      ∙ ap (λ (x : List ℕ). bytes ++ x) (append_one t rest 10) in
    ap (λ (x : List ℕ). scan x [] last) same
    ∙ (e
        ∙ (scan-line t rest [] last' h (omega arith)
            ∙ ap (λ (x : List ℕ). scan rest [] x) (drop_cr-IsLine t h)))

scan-end : (x : List ℕ) → scan [] [] x ≡ some x
unfolding scan
scan-end x = refl

module _ {ℓ} {V : Type ℓ} (codec : Codec V) where
  parse_back :
      (t : List ℕ) (v : V) → codec.unmarshal t ≡ some v → parse_last codec (some t) ≡ latest v
  unfolding parse_last
  parse_back t v back = rw (parse_last, back) refl

  -- What is marshalled is one line, and it is unmarshalled to what it was.
  abbrev pub Lawful : Type ℓ
  Lawful = (v : V) (t : List ℕ) → codec.marshal v ≡ some t → IsLine t × (codec.unmarshal t ≡ some v)

  -- The folder can be made, the file opens, and the line is written.
  abbrev pub works : Fs
  works = record { mkdir_ok = true; open_ok = true; written = none }

  -- A file of whole lines, to which a record is appended that is marshalled to at most 65535 bytes,
  -- stays one, and the record is the one that is read next. What is marshalled is one line, and it
  -- is unmarshalled to what it was.
  pub record-latest :
      Lawful
      → (file : File) (v : V) (t : List ℕ) → IsLog (content_of file)
      → codec.marshal v ≡ some t
      → length t ≤ 65535
      → let file' = (record_change_event codec false works file v).1 in
        (get_latest codec false true file' ≡ latest v) × IsLog (content_of file')
  unfolding record_change_event write_line get_latest content_of
  record-latest lawful file v t log e l =
      let (line, back) = lawful v t e in
      let bytes : List ℕ = content_of file in
      let read : scan (bytes ++ (t ++ (10 ∷ []))) [] [] ≡ some t =
        sym (ap (λ (x : List ℕ). scan x [] []) (append_nil (bytes ++ (t ++ (10 ∷ [])))))
        ∙ (line-IsLog bytes t [] [] log line l ∙ scan-end t) in
      rw e (
        ap (parse_last codec) read ∙ parse_back t v back,
        λ rest last. (t, line-IsLog bytes t rest last log line l),
      )
