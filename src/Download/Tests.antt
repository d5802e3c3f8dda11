-- ===== src/Download/Tests.antt =====
-- The theorems on downloads at concrete inputs: a content of five bytes and a provider that serves it.
use bscp_go.Retry.{RetryPolicy, Counts}
use bscp_go.Download.Ranges.Cover.{EndToEnd, parts-EndToEnd}
use bscp_go.Download.Http.Retries.{Over, Decided, with_retry-Decided}
use bscp_go.Download.Http.Ranged.Whole.{download_with_range-complete}
use bscp_go.Download.Exec.Content.{OutcomeRight, HonestReply}
use bscp_go.Download.Exec.Complete.{http_download-right}
use bscp_go.Prelude.{
  ℕ, ◌+◌, ◌^◌, ◌≡◌, refl, sym, ap, true, false, none, some, List, [], ◌∷◌, arith, length, get_elem?,
}
use bscp_go.Download.Body.{nil_err, eof, Chunk, FileBytes, Target, to_bytes, to_file, failed, write}
use bscp_go.Download.Body.Written.{Serves, Sound, write-Sound}
use bscp_go.Download.Ranges.{parts, Range, whole, sliced}
use bscp_go.Download.Http.{
  response, Ask, download_directly, with_retry, ranges, is_provider_support_range_download, weight,
  setup_max_http_download_goroutines,
}
use bscp_go.Download.Http.Ranged.{Ended, complete, download_with_range}
use bscp_go.Download.Http.Ranged.Content.{Honest, AllHonest}
use bscp_go.Download.Exec.{Repo, urls, into_file, http_download}

abbrev five : List ℕ
five = 11 ∷ 12 ∷ 13 ∷ 14 ∷ 15 ∷ []

-- The bytes in one read, then the end.
abbrev one_read : List ℕ → List Chunk
one_read bytes =
    record { picked = bytes; err = nil_err; write_ok = true; partial = 0; done = false }
    ∷ record { picked = []; err = eof; write_ok = true; partial = 0; done = false }
    ∷ []

abbrev serve : Ask
serve r = record { acquired = true; reply = response 206 (one_read (sliced five r)) }

-- The provider answers 500.
abbrev fail : Ask
fail r = record { acquired = true; reply = response 500 [] }

abbrev counting : RetryPolicy
counting = record { Policy = ℕ; new_policy = 0; retry_count = λ n. n; sleep = λ n. n + 1 }

abbrev counting-Counts : Counts counting
counting-Counts = record { new_count = refl; sleep_count = λ p. refl }

abbrev empty_file : FileBytes
empty_file i = none

one_read-Serves : (content : List ℕ) → Serves content 0 (one_read content)
one_read-Serves content = (
  λ j h. let same : 0 + j ≡ j = omega arith in ap (get_elem? content) (sym same),
  omega arith,
  (λ j h. absurd (omega arith), omega arith, tt),
)

serve-Honest : (r : Range) → Honest five r (serve r).reply
serve-Honest r = (λ e. one_read-Serves (sliced five r), λ e. absurd (omega arith))

-- A batch of two bytes: the second part comes first, and the third fails once.
abbrev schedule_3 : List (ℕ × Ask)
schedule_3 = (1, serve) ∷ (2, fail) ∷ (0, serve) ∷ (2, serve) ∷ []

fail-Honest : (r : Range) → Honest five r (fail r).reply
fail-Honest r = (λ e. absurd (omega arith), λ e. absurd (omega arith))

schedule_3-Honest : AllHonest five schedule_3
schedule_3-Honest = (serve-Honest, (fail-Honest, (serve-Honest, (serve-Honest, tt))))

abbrev file_of : Target → FileBytes
file_of (to_file f) = f
file_of (to_bytes _) = empty_file

-- What the ranged download of the five bytes leaves.
abbrev fetched_5 : FileBytes
fetched_5 = file_of ((download_with_range counting 5 1 (to_file empty_file) schedule_3).1)

fetched_5-complete :
    download_with_range counting (length five) 1 (to_file empty_file) schedule_3
    ≡ (complete, to_file fetched_5)
unfolding download_with_range bscp_go.Download.Ranges.parts
    bscp_go.Download.Http.download_one_ranged_part bscp_go.Download.Ranges.part
    bscp_go.Download.Body.write bscp_go.Download.Ranges.range_header
fetched_5-complete = refl

download_with_range-complete_example : fetched_5 3 ≡ get_elem? five 3
download_with_range-complete_example =
    download_with_range-complete counting five 1 empty_file fetched_5 schedule_3 (omega arith)
      (omega arith) (omega arith) (omega arith) schedule_3-Honest fetched_5-complete 3 (omega arith)

-- A provider that answers 200 with the whole content to a range.
abbrev ignore_range : Ask
ignore_range r = record { acquired = true; reply = response 200 (one_read five) }

-- The last part is there when the answer to the second one is written over it from the second's start.
-- The second part is then fetched again, and the download is complete with a wrong last byte.
abbrev ignored_range : Ended × Target
ignored_range =
    download_with_range counting 5 1 (to_file empty_file)
      ((0, serve) ∷ (2, serve) ∷ (1, ignore_range) ∷ (1, serve) ∷ [])

wrong_last : (ignored_range.0 ≡ complete) × (file_of (ignored_range.1) 4 ≡ some 13)
unfolding download_with_range bscp_go.Download.Ranges.parts
    bscp_go.Download.Http.download_one_ranged_part bscp_go.Download.Ranges.part
    bscp_go.Download.Body.write bscp_go.Download.Ranges.range_header bscp_go.Download.Body.write_at
wrong_last = (refl, refl)

-- The number of parts is an int: for 2^63 parts of one byte it is negative, and there is no round.
no_part : parts (2 ^ 63) 1 ≡ []
unfolding parts
no_part = refl

write-Sound_example : Sound five 2 empty_file 5 0 (write (to_file empty_file) 5 2 0 (one_read five))
write-Sound_example = write-Sound five 2 (one_read five) empty_file 5 0 (one_read-Serves five)

fail-Over : (target : Target) → Over (download_directly 5 target fail)
unfolding download_directly bscp_go.Download.Http.do_request bscp_go.Download.Http.fetch
fail-Over target = tt

with_retry-Decided_example : Decided counting counting-Counts (download_directly 5) (
    with_retry counting
      (download_directly 5)
      (to_file empty_file)
      (fail ∷ fail ∷ fail ∷ fail ∷ fail ∷ []))
with_retry-Decided_example =
    with_retry-Decided counting counting-Counts (download_directly 5) (to_file empty_file)
      (fail ∷ fail ∷ fail ∷ fail ∷ fail ∷ []) (omega arith)
      (fail-Over, (fail-Over, (fail-Over, (fail-Over, (fail-Over, tt)))))

parts-EndToEnd_example : EndToEnd 0 5 (parts 5 2)
parts-EndToEnd_example = parts-EndToEnd 5 2 (omega arith) (omega arith) (omega arith)

-- Two repositories, of which the first fails.
abbrev repo_down : Repo
repo_down = record { head = none; schedule = []; asks = fail ∷ fail ∷ fail ∷ fail ∷ fail ∷ [] }

abbrev repo_up : Repo
repo_up = record { head = none; schedule = []; asks = fail ∷ serve ∷ [] }

two_repos-Honest : HonestReply five (urls (repo_down ∷ repo_up ∷ []) repo_up)
two_repos-Honest =
    let failed = fail-Honest whole in
    (
      (
        (tt, (failed, (failed, (failed, (failed, (failed, tt)))))),
        ((tt, (failed, (serve-Honest whole, tt))), tt),
      ),
      (tt, (failed, (serve-Honest whole, tt))),
    )

http_download-right_example :
    OutcomeRight five
      (http_download counting 1 5 (into_file false true) (urls (repo_down ∷ repo_up ∷ []) repo_up))
http_download-right_example =
    http_download-right five counting 1 (omega arith) (omega arith) (omega arith) false true
      (urls (repo_down ∷ repo_up ∷ []) repo_up) two_repos-Honest

-- A weight of 16 is taken as it is.
sixteen : setup_max_http_download_goroutines (weight 16) ≡ 16
unfolding setup_max_http_download_goroutines
sixteen = refl

-- The header of a provider that serves ranges.
supported :
    is_provider_support_range_download (
      some (record {
        code = 200;
        accept_ranges = some ("bytes" ∷ []);
        content_length = some (some 5 ∷ []);
      }))
    ≡ ranges 5
unfolding is_provider_support_range_download
supported = refl
