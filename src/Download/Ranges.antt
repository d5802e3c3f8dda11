-- ===== src/Download/Ranges.antt =====
-- internal/downloader/http.go: how `downloadWithRange` cuts a file into parts, and the header of
-- each part's request.
pub mod Cover
use bscp_go.Prelude.{
  ℕ, zero, suc, ◌+◌, ◌-◌, ◌*◌, ◌/◌, ◌%◌, ◌^◌, List, [], ◌∷◌, ltb, ◌==◌, if◌then◌else◌, take, drop,
}

abbrev pub u64 : ℕ → ℕ
u64 n = n % 2 ^ 64

-- `totalParts`, an int of 64 bits by these: from 2^63 on they stand for a negative number.
pub total_parts : ℕ → ℕ → ℕ
total_parts file_size batch_size =
    let whole = file_size / batch_size in
    u64 (if ltb 0 (file_size % batch_size) then whole + 1 else whole)

-- How often the loop over the parts runs: not at all for a negative number.
abbrev pub part_rounds : ℕ → ℕ
part_rounds n = if ltb n (2 ^ 63) then n else 0

-- `start` and `end` of a part, the last byte included.
unfoldable pub part : ℕ → ℕ → ℕ → ℕ × ℕ
unfolding total_parts
part file_size batch_size i =
    let start = u64 (i * batch_size) in
    let end_ =
      if i + 1 == total_parts file_size batch_size then file_size else u64 (start + batch_size) in
    (start, u64 (end_ + 2 ^ 64 - 1))

-- The loop over the parts from the `i`-th on.
pub parts_from : ℕ → ℕ → ℕ → ℕ → List (ℕ × ℕ)
parts_from file_size batch_size i zero = []
parts_from file_size batch_size i (suc left) =
    part file_size batch_size i ∷ parts_from file_size batch_size (i + 1) left

unfoldable pub parts : ℕ → ℕ → List (ℕ × ℕ)
unfolding parts_from total_parts
parts file_size batch_size =
    parts_from file_size batch_size 0 (part_rounds (total_parts file_size batch_size))

-- The header `Range`: `bytes=start-` or `bytes=start-end`, or none.
pub data Range : Type 0 where
  whole : Range
  from_byte : ℕ → Range
  span : ℕ → ℕ → Range

unfoldable pub range_header : ℕ → ℕ → Range
range_header start end_ = if start == end_ then from_byte start else span start end_

-- The bytes of a content that a range names, as HTTP defines it.
abbrev pub sliced : List ℕ → Range → List ℕ
sliced content whole = content
sliced content (from_byte a) = drop a content
sliced content (span a b) = take (b + 1 - a) (drop a content)
