-- ===== src/Download/Http/Retries.antt =====
-- The loops of retries end, and so does the loop that reads a body into a file.
use bscp_go.Retry.{RetryPolicy, Counts}
use bscp_go.Prelude.{
  ℕ, zero, suc, ◌+◌, ◌≤◌, ◌≡◌, refl, ◌≢◌, ◌⊎◌, inl, inr, Bool, true, false, List, [], ◌∷◌, ◌++◌,
  arith, ltb, leb, ◌==◌, if◌then◌else◌, Bool-cases, length, length-append,
}
use bscp_go.Download.Body.{
  ReadErr, nil_err, eof, read_failed, Chunk, FileBytes, Target, to_bytes, to_file, body_failed,
  wrong_size, WriteResult, finished, failed, write_at, write,
}
use bscp_go.Download.Http.{
  Ask, HttpErr, Attempt, got, missed, hung, crashed, written, Retried, succeeded, gave_up, waiting,
  crash, retrying, with_retry,
}

-- Once the body answers no bytes and an error, or the context is done, or a write fails.
abbrev pub Ends : List Chunk → Type 0
Ends [] = ⊥
Ends (c ∷ cs) = (c.done ≡ true) ⊎ ((length c.picked ≡ 0) × (c.err ≢ nil_err)) ⊎ Ends cs

-- An attempt that is over returns or fails.
abbrev pub Over : Attempt → Type 0
Over (got t) = Unit
Over (missed e t) = Unit
Over hung = ⊥
Over crashed = ⊥

abbrev pub IsFile : Target → Type 0
IsFile (to_bytes _) = ⊥
IsFile (to_file _) = Unit

empty-Over :
    (e : ReadErr) (r : WriteResult) (f : FileBytes) (b : Bool)
    → e ≢ nil_err
    → Over (
        written (elim e [
          | nil_err ↦ r
          | read_failed ↦ failed body_failed (to_file f)
          | eof ↦ if b then finished (to_file f) else failed wrong_size (to_file f)
        ]))
unfolding written
empty-Over nil_err r f b h = absurd (h refl)
empty-Over read_failed r f b h = tt
empty-Over eof r f true h = tt
empty-Over eof r f false h = tt

later-Over :
    (e : ReadErr) (r : WriteResult) (f : FileBytes) (b : Bool)
    → Over (written r)
    → Over (
        written (elim e [
          | nil_err ↦ r
          | read_failed ↦ failed body_failed (to_file f)
          | eof ↦ if b then finished (to_file f) else failed wrong_size (to_file f)
        ]))
unfolding written
later-Over nil_err r f b h = h
later-Over read_failed r f b h = tt
later-Over eof r f true h = tt
later-Over eof r f false h = tt

-- `write` to a file returns or fails, and does not panic, when the context gets done or the body at
-- some point answers no bytes and an error, whatever it reads and writes before.
pub write-Ends :
    (f : FileBytes) (expect start total : ℕ) (cs : List Chunk)
    → Ends cs
    → Over (written (write (to_file f) expect start total cs))
unfolding write written
write-Ends f expect start total [] h = absurd h
write-Ends f expect start total (c ∷ cs) h = elim (Bool-cases c.done) [
  | inl over ↦ rw over tt
  | inr on ↦ elim (Bool-cases (ltb 0 (length c.picked))) [
    | inr none_read ↦ elim h [
      | inl done ↦ absurd (grind arith)
      | inr (inl (_, ended)) ↦
          rw (on, none_read)
            (empty-Over c.err (write (to_file f) expect start (total + length c.picked) cs) f
              (total + length c.picked == expect) ended)
      | inr (inr later) ↦
          rw (on, none_read)
            (later-Over c.err (write (to_file f) expect start (total + length c.picked) cs) f
              (total + length c.picked == expect)
              (write-Ends f expect start (total + length c.picked) cs later))
    ]
    | inl read ↦ elim (Bool-cases c.write_ok) [
      | inr bad ↦ rw (on, read, bad) tt
      | inl good ↦ elim h [
        | inl done ↦ absurd (grind arith)
        | inr (inl (nothing, _)) ↦ absurd (ground arith)
        | inr (inr later) ↦
            rw (on, read, good)
              (write-Ends (write_at f (start + total) c.picked) expect start
                (total + length c.picked) cs later)
      ]
    ]
  ]
]

module _ (policy : RetryPolicy) (counts : Counts policy) (attempt : Target → Ask → Attempt) where
  abbrev pub AllOver : List Ask → Type 0
  AllOver [] = Unit
  AllOver (t ∷ ts) = ((target : Target) → Over (attempt target t)) × AllOver ts

  -- Success, or five errors.
  abbrev pub Decided : Retried policy → Type 0
  Decided (succeeded t) = Unit
  Decided (gave_up errs t) = length errs ≡ 5
  Decided waiting = ⊥
  Decided crash = ⊥

  attempted :
      (a : Attempt) (again : HttpErr → Target → Retried policy)
      → Over a
      → ((e : HttpErr) (target : Target) → Decided (again e target))
      → Decided (elim a [
        | got target' ↦ succeeded target'
        | missed e target' ↦ again e target'
        | hung ↦ waiting
        | crashed ↦ crash
      ])
  attempted (got t) again o h = tt
  attempted (missed e t) again o h = h e t
  attempted hung again o h = o
  attempted crashed again o h = o

  retrying-Decided :
      (p : policy.Policy) (errs : List HttpErr) (target : Target) (tries : List Ask) (left : ℕ)
      → policy.retry_count p + left ≡ 5
      → length errs + left ≡ 5
      → left ≤ length tries
      → AllOver tries
      → Decided (retrying policy attempt p errs target tries)
  unfolding retrying
  retrying-Decided p errs target [] left c e l a = ground arith
  retrying-Decided p errs target (t ∷ ts) zero c e l (o, a) =
      let full : leb 5 (policy.retry_count p) ≡ true = ground arith in
      let five : length errs ≡ 5 = omega arith in rw full five
  retrying-Decided p errs target (t ∷ ts) (suc left) c e l (o, a) =
      let more : leb 5 (policy.retry_count p) ≡ false = ground arith in
      rw more (
        attempted (attempt target t)
          (λ err target'. retrying policy attempt (policy.sleep p) (errs ++ (err ∷ [])) target' ts)
          (o target)
          (λ err target'.
            retrying-Decided (policy.sleep p) (errs ++ (err ∷ [])) target' ts left
              (omega (arith, counts.sleep_count p)) (omega (arith, length-append errs (err ∷ [])))
              (omega arith) a))

  -- When each attempt returns or fails, and the provider answers five of them, a download with
  -- retries is decided within five attempts: it succeeds, or it gives up with exactly five errors.
  -- `Sleep` of the policy adds one to its count, which begins at 0.
  pub with_retry-Decided :
      (target : Target) (tries : List Ask)
      → 5 ≤ length tries
      → AllOver tries
      → Decided (with_retry policy attempt target tries)
  with_retry-Decided target tries l a =
      retrying-Decided policy.new_policy [] target tries 5 (omega (arith, counts.new_count)) refl l
        a
