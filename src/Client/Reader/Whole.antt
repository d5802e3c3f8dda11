-- ===== src/Client/Reader/Whole.antt =====
-- Reading to the end gives the whole stream.
use bscp_go.Prelude.{
  ℕ, zero, suc, ◌+◌, ◌≤◌, ◌<◌, ◌≡◌, refl, sym, ap, ◌∙◌, Option, none, some, List, [], ◌∷◌, ◌++◌,
  arith, length, take, drop, append_assoc, take-append-drop, length-drop,
}
use bscp_go.Client.Reader.{
  Recv, content, stream_failed, FileStreamReader, ReadErr, eof, failed, read_all,
}

-- The bytes of the stream up to its first error, and that error.
abbrev pub whole : List Recv → List ℕ × ReadErr
whole [] = ([], eof)
whole (stream_failed ∷ more) = ([], failed)
whole (content bytes ∷ more) = (bytes ++ (whole more).0, (whole more).1)

-- Rounds that are enough: one for each byte and message, and one for the error.
abbrev pub rounds : List Recv → ℕ
rounds [] = 1
rounds (stream_failed ∷ more) = 1
rounds (content bytes ∷ more) = 1 + length bytes + rounds more

rounds-pos : (stream : List Recv) → 0 < rounds stream
rounds-pos [] = omega arith
rounds-pos (stream_failed ∷ more) = omega arith
rounds-pos (content bytes ∷ more) = omega arith

-- A read that copies, and the reads behind it.
copied_first :
    (fuel n : ℕ) (buffer : List ℕ) (stream : List Recv) (bytes : List ℕ) (e : ReadErr)
    → read_all fuel n (record { stream = stream; buffer = drop n buffer })
      ≡ some (drop n buffer ++ bytes, e)
    → (elim (read_all fuel n (record { stream = stream; buffer = drop n buffer }))
        as (λ _. Option (List ℕ × ReadErr)) [
          | none ↦ none
          | some (more, e) ↦ some (take n buffer ++ more, e)
        ])
      ≡ some (buffer ++ bytes, e)
copied_first fuel n buffer stream bytes e h = rw h (
    ap (λ (all : List ℕ). some (all, e))
      (sym (append_assoc (take n buffer) (drop n buffer) bytes)
        ∙ ap (λ (all : List ℕ). all ++ bytes) (take-append-drop n buffer)))

read_from :
    (fuel n : ℕ) (buffer : List ℕ) (stream : List Recv)
    → 0 < n
    → length buffer + rounds stream ≤ fuel
    → read_all fuel n (record { stream = stream; buffer = buffer })
      ≡ some (buffer ++ (whole stream).0, (whole stream).1)
unfolding read_all
read_from zero n buffer stream room h = absurd (omega (arith, rounds-pos stream))
read_from (suc fuel) n [] [] room h = refl
read_from (suc fuel) n [] (stream_failed ∷ more) room h = refl
read_from (suc fuel) n [] (content bytes ∷ more) room h =
    copied_first fuel n bytes more (whole more).0 (whole more).1
      (read_from fuel n (drop n bytes) more room (omega (arith, length-drop bytes n)))
read_from (suc fuel) n (b ∷ buffer) stream room h =
    copied_first fuel n (b ∷ buffer) stream (whole stream).0 (whole stream).1 (
      read_from fuel n (drop n (b ∷ buffer)) stream room
        (omega (arith, length-drop (b ∷ buffer) n)))

-- Reads into slices of any length but 0, until the first error, give the buffered bytes and then
-- those of the stream up to its first error, none lost and none twice; they end within as many
-- reads as there are bytes and messages, and one more.
pub read_all-whole :
    (fuel n : ℕ) (r : FileStreamReader)
    → 0 < n
    → length r.buffer + rounds r.stream ≤ fuel
    → read_all fuel n r ≡ some (r.buffer ++ (whole r.stream).0, (whole r.stream).1)
read_all-whole fuel n r some_room h = read_from fuel n r.buffer r.stream some_room h
