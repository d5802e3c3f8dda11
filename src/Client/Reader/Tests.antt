-- ===== src/Client/Reader/Tests.antt =====
-- A buffered byte, and a stream of two messages that then fails, read two bytes at a time.
use bscp_go.Prelude.{◌≡◌, some, [], ◌∷◌, arith}
use bscp_go.Client.Reader.{content, stream_failed, FileStreamReader, failed, read_all}
use bscp_go.Client.Reader.Whole.{read_all-whole}

abbrev reader : FileStreamReader
reader = record {
  stream = content (2 ∷ 3 ∷ 4 ∷ []) ∷ content (5 ∷ []) ∷ stream_failed ∷ content (6 ∷ []) ∷ [];
  buffer = 1 ∷ [];
}

read_all-whole_example : read_all 9 2 reader ≡ some (1 ∷ 2 ∷ 3 ∷ 4 ∷ 5 ∷ [], failed)
read_all-whole_example = read_all-whole 9 2 reader (omega arith) (omega arith)
