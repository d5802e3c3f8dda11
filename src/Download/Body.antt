-- ===== src/Download/Body.antt =====
-- internal/downloader/http.go: `write`, which moves a response body to its target.
pub mod Written
pub mod Bytes
pub mod Memory
use mathlib.Core.Option
use bscp_go.Prelude.{
  ℕ, zero, suc, ◌+◌, Bool, Option, none, some, List, [], ◌∷◌, ltb, ◌==◌, if◌then◌else◌, length,
  take,
}

-- What `Read` of a body returns next to its bytes.
pub data ReadErr : Type 0 where
  nil_err eof read_failed : ReadErr

-- One round of the loop: the bytes that `Read` returns and its error, whether the `WriteAt` that
-- follows works (if not, `partial` bytes were written), and whether the context is done before.
pub record Chunk : Type 0 where
  pub picked : List ℕ
  pub err : ReadErr
  pub write_ok : Bool
  pub partial : ℕ
  pub done : Bool

-- A file maps each offset to its byte, `none` where nothing was written since it was truncated.
abbrev pub FileBytes : Type 0
FileBytes = ℕ → Option ℕ

-- `DownloadToBytes` with the slice, or `DownloadToFile`.
pub data Target : Type 0 where
  to_bytes : List ℕ → Target
  to_file : FileBytes → Target

pub data WriteErr : Type 0 where
  context_done write_failed body_failed wrong_size : WriteErr

-- `pending`: the body has not ended. `panics`: an index is out of range.
pub data WriteResult : Type 0 where
  finished : Target → WriteResult
  failed : WriteErr → Target → WriteResult
  pending panics : WriteResult

-- `file.WriteAt(bytes, offset)`
unfoldable pub write_at : FileBytes → ℕ → List ℕ → FileBytes
write_at f offset [] i = f i
write_at f offset (b ∷ bs) i = if i == offset then some b else write_at f (offset + 1) bs i

-- `exec.bytes[at+i] = swap[i]` for each picked byte; `none` is an index out of range.
pub store : List ℕ → ℕ → List ℕ → Option (List ℕ)
store bytes at_ [] = some bytes
store [] at_ (b ∷ bs) = none
store (x ∷ bytes) zero (b ∷ bs) = Option.map (λ rest. b ∷ rest) (store bytes zero bs)
store (x ∷ bytes) (suc at_) (b ∷ bs) = Option.map (λ rest. x ∷ rest) (store bytes at_ (b ∷ bs))

-- What is left of the round after the picked bytes are stored: the target, and the error that the
-- tests after it read. `WriteAt` overwrites the error of `Read`.
pub data Stored : Type 0 where
  stored : Target → ReadErr → Stored
  store_failed : Target → Stored
  out_of_range : Stored

pub store_chunk : Target → ℕ → ℕ → Chunk → Stored
store_chunk (to_bytes bytes) start total c = elim (store bytes total c.picked) [
  | none ↦ out_of_range
  | some bytes' ↦ stored (to_bytes bytes') c.err
]
store_chunk (to_file f) start total c =
    if c.write_ok
    then stored (to_file (write_at f (start + total) c.picked)) nil_err
    else store_failed (to_file (write_at f (start + total) (take c.partial c.picked)))

pub pick : Target → ℕ → ℕ → Chunk → Stored
unfolding store_chunk
pick target start total c =
    if ltb 0 (length c.picked) then store_chunk target start total c else stored target c.err

-- The rounds of the loop, and the test of the size behind it.
unfoldable pub write : Target → ℕ → ℕ → ℕ → List Chunk → WriteResult
unfolding pick
write target expect start total [] = pending
write target expect start total (c ∷ cs) =
    let rest = λ (t : Target). write t expect start (total + length c.picked) cs in
    if c.done then failed context_done target else elim (pick target start total c) [
      | out_of_range ↦ panics
      | store_failed t ↦ failed write_failed t
      | stored t nil_err ↦ rest t
      | stored t read_failed ↦ failed body_failed t
      | stored t eof ↦ if total + length c.picked == expect then finished t else failed wrong_size t
    ]
