-- ===== src/Download/Body/Bytes.antt =====
-- `write` to memory.
use bscp_go.Prelude.{
  ℕ, ◌+◌, ◌≡◌, refl, inl, inr, Bool, List, [], ◌∷◌, ltb, ◌==◌, if◌then◌else◌, Bool-cases,
  Option-cases, length,
}
use bscp_go.Download.Body.{
  ReadErr, nil_err, eof, read_failed, Chunk, Target, to_bytes, body_failed, wrong_size, WriteResult,
  finished, failed, store, write,
}

same_end :
    (e : ReadErr) (r r' : WriteResult) (t : Target) (full : Bool)
    → r ≡ r'
    → ◌≡◌ {A = WriteResult}
        (elim e [
          | nil_err ↦ r
          | read_failed ↦ failed body_failed t
          | eof ↦ if full then finished t else failed wrong_size t
        ])
        (elim e [
          | nil_err ↦ r'
          | read_failed ↦ failed body_failed t
          | eof ↦ if full then finished t else failed wrong_size t
        ])
same_end nil_err r r' t full h = h
same_end read_failed r r' t full h = refl
same_end eof r r' t full h = refl

-- `write` to memory does the same whatever `start` it is given: a part of a ranged download is
-- stored from the first byte of the slice on, wherever in the file it belongs.
pub write_bytes-start :
    (bytes : List ℕ) (expect start start' total : ℕ) (cs : List Chunk)
    → write (to_bytes bytes) expect start total cs ≡ write (to_bytes bytes) expect start' total cs
unfolding write
write_bytes-start bytes expect start start' total [] = refl
write_bytes-start bytes expect start start' total (c ∷ cs) = elim (Bool-cases c.done) [
  | inl over ↦ rw over refl
  | inr on ↦ elim (Bool-cases (ltb 0 (length c.picked))) [
    | inr none_read ↦
        rw (on, none_read)
          (same_end c.err (write (to_bytes bytes) expect start (total + length c.picked) cs)
            (write (to_bytes bytes) expect start' (total + length c.picked) cs) (to_bytes bytes)
            (total + length c.picked == expect)
            (write_bytes-start bytes expect start start' (total + length c.picked) cs))
    | inl read ↦ elim (Option-cases (store bytes total c.picked)) [
      | inl over ↦ rw (on, read, over) refl
      | inr (bytes', e) ↦
          rw (on, read, e)
            (same_end c.err (write (to_bytes bytes') expect start (total + length c.picked) cs)
              (write (to_bytes bytes') expect start' (total + length c.picked) cs) (to_bytes bytes')
              (total + length c.picked == expect)
              (write_bytes-start bytes' expect start start' (total + length c.picked) cs))
    ]
  ]
]
