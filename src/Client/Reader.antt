-- ===== src/Client/Reader.antt =====
-- client/types.go: `FileStreamReader`, which hands on a streamed file in pieces of any size.
pub mod Whole
mod Tests
use bscp_go.Prelude.{
  ℕ, zero, suc, Option, none, some, List, [], ◌∷◌, ◌++◌, if◌then◌else◌, take, drop, is_empty,
}

-- What `Recv` returns: the content of a message, or an error (`io.EOF` at the end of the stream).
pub data Recv : Type 0 where
  content : List ℕ → Recv
  stream_failed : Recv

-- What is left of the stream, which ends with `io.EOF`, and the buffer.
pub record FileStreamReader : Type 0 where
  pub stream : List Recv
  pub buffer : List ℕ

pub data ReadErr : Type 0 where
  eof failed : ReadErr

-- What `Read` returns: the bytes that it copied, or an error.
pub data Read : Type 0 where
  copied : List ℕ → Read
  read_err : ReadErr → Read

-- The copy into a slice of length `n`.
pub copy_out : ℕ → FileStreamReader → Read × FileStreamReader
copy_out n r = (copied (take n r.buffer), record r { buffer = drop n r.buffer })

-- `Read` into a slice of length `n`.
pub read : ℕ → FileStreamReader → Read × FileStreamReader
unfolding copy_out
read n r =
    if is_empty r.buffer
    then elim r.stream [
      | [] ↦ (read_err eof, r)
      | stream_failed ∷ more ↦ (read_err failed, record r { stream = more })
      | content bytes ∷ more ↦ copy_out n (record r { stream = more; buffer = bytes })
    ]
    else copy_out n r

-- A reader's loop: reads into slices of length `n` until an error; `none` if the fuel is used up.
pub read_all : ℕ → ℕ → FileStreamReader → Option (List ℕ × ReadErr)
unfolding read
read_all zero n r = none
read_all (suc fuel) n r =
    let (result, r') = read n r in
    let rest = read_all fuel n r' in
    elim result [
      | read_err e ↦ some ([], e)
      | copied bytes ↦ elim rest [ none ↦ none | some (more, e) ↦ some (bytes ++ more, e) ]
    ]
