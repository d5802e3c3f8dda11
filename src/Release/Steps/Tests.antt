-- ===== src/Release/Steps/Tests.antt =====
-- The theorems on releases at concrete inputs, with a codec of two numbers to an event.
use mathlib.Core.Path.{subst}
use bscp_go.Prelude.{
  ℕ, ◌+◌, ◌-◌, ◌≤◌, ◌≡◌, refl, ap, ◌↔◌, ◌⊎◌, true, false, Option, none, some, List, [], ◌∷◌, arith,
  ◌==◌, if◌then◌else◌, length,
}
use bscp_go.Release.Log.{Codec, content_of, latest, no_file, record_change_event, get_latest}
use bscp_go.Release.Log.RoundTrip.{IsLine, IsLog, Lawful, works, record-latest}
use bscp_go.Release.Steps.{
  Status, event_success, event_failed, ChangeEvent, failed, watch, Release, truncate_string, Report,
  World, skip, compare_release, Err, execute,
}
use bscp_go.Release.Steps.Recorded.{Skipped, Recorded, execute-Recorded}
use bscp_go.Release.Steps.Skips.{Agrees, compare_release-skip}

abbrev code_of : Status → ℕ
code_of event_success = 1
code_of event_failed = 0

abbrev marshal_event : ChangeEvent → List ℕ
marshal_event e = (e.release_id + 20) ∷ code_of e.status ∷ []

abbrev unmarshal_event : List ℕ → Option ChangeEvent
unmarshal_event (n ∷ c ∷ []) =
    some (record { release_id = n - 20; status = if c == 1 then event_success else event_failed })
unmarshal_event [] = none
unmarshal_event (n ∷ []) = none
unmarshal_event (n ∷ c ∷ d ∷ bs) = none

abbrev two_numbers : Codec ChangeEvent
two_numbers = record { marshal = λ e. some (marshal_event e); unmarshal = unmarshal_event }

two_numbers-IsLine : (e : ChangeEvent) → IsLine (marshal_event e)
two_numbers-IsLine e = code_line e.status
  where
    code_line : (s : Status) → IsLine ((e.release_id + 20) ∷ code_of s ∷ [])
    code_line event_success = (
      λ p. absurd (omega arith),
      λ p. absurd (omega arith),
      (λ p. absurd (omega arith), λ p. absurd (omega arith), tt),
    )
    code_line event_failed = (
      λ p. absurd (omega arith),
      λ p. absurd (omega arith),
      (λ p. absurd (omega arith), λ p. absurd (omega arith), tt),
    )

two_numbers-back : (e : ChangeEvent) → unmarshal_event (marshal_event e) ≡ some e
two_numbers-back e = code_back e.status
  where
    code_back :
        (s : Status)
        → unmarshal_event ((e.release_id + 20) ∷ code_of s ∷ [])
          ≡ some (record { release_id = e.release_id; status = s })
    code_back event_success =
        let same : e.release_id + 20 - 20 ≡ e.release_id = omega arith in rw same refl
    code_back event_failed =
        let same : e.release_id + 20 - 20 ≡ e.release_id = omega arith in rw same refl

two_numbers-Lawful : Lawful two_numbers
two_numbers-Lawful e t m =
    subst (λ (x : List ℕ). IsLine x × (unmarshal_event x ≡ some e))
      (ap (λ (o : Option (List ℕ)). elim o [ none ↦ t | some x ↦ x ]) m)
      (two_numbers-IsLine e, two_numbers-back e)

two_numbers-fits :
    (e : ChangeEvent) → (t : List ℕ) × (two_numbers.marshal e ≡ some t) × (length t ≤ 65535)
two_numbers-fits e = (marshal_event e, refl, omega arith)

nothing_logged : IsLog (content_of none)
unfolding content_of
nothing_logged = λ rest last. (last, refl)

abbrev event_7 : ChangeEvent
event_7 = record { release_id = 7; status = event_success }

record-latest_example :
    let file' = (record_change_event two_numbers false (works two_numbers) none event_7).1 in
    (get_latest two_numbers false true file' ≡ latest event_7) × IsLog (content_of file')
record-latest_example =
    record-latest two_numbers two_numbers-Lawful none event_7 (27 ∷ 1 ∷ []) nothing_logged refl
      (omega arith)

abbrev release_7 : Release
release_7 = record {
  release_id = 7;
  match_ = 1 ∷ 2 ∷ [];
  mode = watch;
  current_release_id = 0;
  change_status = failed;
  detail = [];
  cursor_id = 5 ∷ [];
  app_cursor_id = [];
}

abbrev report_ok : Report
report_ok = record { opens = true; fs = works two_numbers; encoded = true; accepted = true }

abbrev world_7 : World
world_7 = record { release = release_7; events = none; sent = [] }

abbrev no_text : Err → List ℕ
no_text e = []

-- The second step fails.
execute-Recorded_example :
    let o =
      execute two_numbers false no_text no_file report_ok report_ok
        (none ∷ some (9 ∷ []) ∷ [])
        true
        world_7 in
    Skipped two_numbers no_text two_numbers-Lawful two_numbers-fits no_file true world_7 o
    ⊎ Recorded two_numbers no_text two_numbers-Lawful two_numbers-fits world_7 o
execute-Recorded_example =
    execute-Recorded two_numbers no_text two_numbers-Lawful two_numbers-fits report_ok report_ok
      none (some (9 ∷ []) ∷ []) no_file true world_7 refl nothing_logged

compare_release-skip_example :
    ((compare_release release_7
        (latest (record { release_id = 7; config_matches = 2 ∷ 1 ∷ [] }))
        (latest event_7)).0
      ≡ skip)
    ↔ Agrees release_7
        (latest (record { release_id = 7; config_matches = 2 ∷ 1 ∷ [] }))
        (latest event_7)
compare_release-skip_example =
    compare_release-skip release_7 (latest (record { release_id = 7; config_matches = 2 ∷ 1 ∷ [] }))
      (latest event_7)

-- Texts of up to the length are kept, and longer ones end in dots.
truncated : truncate_string (1 ∷ 2 ∷ 3 ∷ []) 2 ≡ 1 ∷ 2 ∷ 46 ∷ 46 ∷ 46 ∷ []
unfolding truncate_string
truncated = refl
