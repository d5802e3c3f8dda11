-- ===== src/Download/Async/Checked.antt =====
-- The asynchronous downloader returns no error only for a target with the signature.
use bscp_go.Prelude.{
  ℕ, ◌≡◌, refl, inl, inr, Bool, Option, none, some, List, arith, Bool-cases, bytes_eq,
  bytes_eq_sound,
}
use bscp_go.Download.Async.{
  Poll, AsyncErr, Awaited, completed, await_err, polling, await_download_completion, Calls, Pair,
  after_copy, cross_device_move_file, move_file, verify_checksum, take_over, async_download,
}

abbrev pub Signed : (List ℕ → List ℕ) → List ℕ → Option (List ℕ) → Type 0
Signed sha256 signature none = ⊥
Signed sha256 signature (some bytes) = sha256 bytes ≡ signature

-- What a download leaves: with no error, the target is what the task left and has the signature.
abbrev pub Result : (List ℕ → List ℕ) → List ℕ → Pair → Option (Option AsyncErr × Pair) → Type 0
Result sha256 signature p none = Unit
Result sha256 signature p (some (some e, p')) = Unit
Result sha256 signature p (some (none, p')) = (p'.dst ≡ p.src) × Signed sha256 signature p'.dst

move_file-dst : (c : Calls) (p p' : Pair) → move_file c p ≡ (none, p') → p'.dst ≡ p.src
unfolding move_file cross_device_move_file after_copy
move_file-dst c p p' h = ground arith

module _ (sha256 : List ℕ → List ℕ) (signature : List ℕ) where
  verify-Signed :
      (c : Calls) (file : Option (List ℕ))
      → verify_checksum sha256 c signature file ≡ none
      → Signed sha256 signature file
  unfolding verify_checksum
  verify-Signed c none h = absurd (grind arith)
  verify-Signed c (some bytes) h = elim (Bool-cases (bytes_eq (sha256 bytes) signature)) [
    | inl same ↦ bytes_eq_sound (sha256 bytes) signature same
    | inr other ↦ absurd (ground arith)
  ]

  verified :
      (c : Calls) (p p' : Pair) (e : Option AsyncErr)
      → p'.dst ≡ p.src
      → verify_checksum sha256 c signature p'.dst ≡ e
      → Result sha256 signature p (some (e, p'))
  verified c p p' none moved h = (moved, verify-Signed c p'.dst h)
  verified c p p' (some x) moved h = tt

  taken :
      (c : Calls) (p : Pair) (e : Option AsyncErr) (p' : Pair)
      → move_file c p ≡ (e, p')
      → Result sha256 signature p (
          some (elim e [
            | some x ↦ (some x, p')
            | none ↦ (verify_checksum sha256 c signature p'.dst, p')
          ]))
  taken c p (some x) p' h = tt
  taken c p none p' h =
      verified c p p' (verify_checksum sha256 c signature p'.dst) (move_file-dst c p p' h) refl

  take_over-Result :
      (c : Calls) (p : Pair) → Result sha256 signature p (some (take_over sha256 c signature p))
  unfolding take_over
  take_over-Result c p = taken c p ((move_file c p).0) ((move_file c p).1) refl

  -- The asynchronous download returns no error only if the target is the file that the task left,
  -- moved or copied, and has the signature, however the polls and the calls of the file system go.
  pub async_download-Result :
      (created : Bool) (polls : List Poll) (c : Calls) (p : Pair)
      → Result sha256 signature p (async_download sha256 created polls c signature p)
  unfolding async_download
  async_download-Result created polls c p = elim (Bool-cases created) [
    | inr refused ↦ rw refused tt
    | inl made ↦ rw made (by_wait (await_download_completion polls))
  ]
    where
      by_wait :
          (a : Awaited)
          → Result sha256 signature p (elim a [
            | polling ↦ none
            | await_err e ↦ some (some e, p)
            | completed ↦ some (take_over sha256 c signature p)
          ])
      by_wait polling = tt
      by_wait (await_err e) = tt
      by_wait completed = take_over-Result c p
