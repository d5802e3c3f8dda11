-- ===== src/Release/Steps/Recorded.antt =====
-- What `Execute` records and returns, and when it skips a release.
use bscp_go.Release.Log.RoundTrip.{IsLog, Lawful, works, record-latest}
use bscp_go.Prelude.{
  ℕ, ◌≤◌, ◌≡◌, refl, ap, ◌∙◌, ◌⊎◌, inl, inr, Bool, true, false, not, Option, none, some, List, ◌∷◌,
  arith, Bool-cases, length,
}
use bscp_go.Release.Log.{
  Codec, Fs, File, content_of, Latest, latest, record_change_event, get_latest,
}
use bscp_go.Release.Steps.{
  Status, event_success, event_failed, EventMeta, ChangeEvent, processing, success, failed, Release,
  Report, World, Compared, skip, go, compare_failed, is_watch, compare_event, compare_release,
  status_of, is_processing, Err, log_failed, record_event, send_message,
  send_version_change_messaging, finish, run_steps, execute_steps, execute,
}

module _ (codec : Codec ChangeEvent) (text : Err → List ℕ) where
  -- A report leaves the file, the release's id and its status.
  abbrev Keeps : World → World → Type 0
  Keeps w w' =
      (w'.events ≡ w.events)
      × (w'.release.release_id ≡ w.release.release_id)
      × (w'.release.change_status ≡ w.release.change_status)
      × (w'.release.match_ ≡ w.release.match_)

  send_message-Keeps :
      (dir_empty : Bool) (p : Report) (w : World)
      → Keeps w ((send_message codec dir_empty text p w).1)
  unfolding send_message
  send_message-Keeps dir_empty p w = ground arith

  -- The event that a report writes which is not the first.
  abbrev event_at : World → ChangeEvent
  event_at w = record {
    release_id = w.release.release_id;
    status = status_of w.release.change_status;
  }

  written_event :
      (dir_empty : Bool) (p : Report) (w w' : World)
      → Keeps w w'
      → ((record_event codec dir_empty text p.fs w').1).events
        ≡ (record_change_event codec dir_empty p.fs w.events (event_at w)).1
  unfolding record_event
  written_event dir_empty p w w' (e, i, s, _) = rw (e, i, s) refl

  report-events :
      (dir_empty : Bool) (p : Report) (w : World)
      → is_processing w.release.change_status ≡ false
      → ((send_version_change_messaging codec dir_empty text p w).1).events
        ≡ (record_change_event codec dir_empty p.fs w.events (event_at w)).1
  unfolding send_version_change_messaging
  report-events dir_empty p w over =
      let w' : World = (send_message codec dir_empty text p w).1 in
      let keeps : Keeps w w' = send_message-Keeps dir_empty p w in
      let still : is_processing w'.release.change_status ≡ false =
        ap is_processing (keeps.2) ∙ over in
      rw still (written_event dir_empty p w w' keeps)

  abbrev status_for : Option Err → Status
  status_for none = event_success
  status_for (some e) = event_failed

  -- The change event of the release, with a success where there is no error.
  abbrev pub event_for : Release → Option Err → ChangeEvent
  event_for r e = record { release_id = r.release_id; status = status_for e }

  finish-events :
      (dir_empty : Bool) (p : Report) (e : Option Err) (w : World)
      → ((finish codec dir_empty text p e w).events)
        ≡ (record_change_event codec dir_empty p.fs w.events (event_for w.release e)).1
  unfolding finish
  finish-events dir_empty p none w =
      report-events dir_empty p
        (record w { release = record w.release { change_status = success } }) refl
  finish-events dir_empty p (some e) w =
      report-events dir_empty p
        (record w { release = record w.release { change_status = failed; detail = text e } }) refl

  -- The first report, whose status is that a change goes on, writes no event.
  first_report-Keeps :
      (dir_empty : Bool) (p : Report) (w : World)
      → is_processing w.release.change_status ≡ true
      → Keeps w ((send_version_change_messaging codec dir_empty text p w).1)
  unfolding send_version_change_messaging
  first_report-Keeps dir_empty p w on =
      let w' : World = (send_message codec dir_empty text p w).1 in
      let keeps : Keeps w w' = send_message-Keeps dir_empty p w in
      let still : is_processing w'.release.change_status ≡ true = ap is_processing (keeps.2) ∙ on in
      rw still keeps

  module _ (lawful : Lawful codec)
      (fits : (v : ChangeEvent)
        → (t : List ℕ) × (codec.marshal v ≡ some t) × (length t ≤ 65535)) where
    -- The event that is read next from the file.
    abbrev pub Reads : World → ChangeEvent → Type 0
    Reads w v = get_latest codec false true w.events ≡ latest v

    finish-Reads :
        (p : Report) (e : Option Err) (w w' : World)
        → p.fs ≡ works codec
        → Keeps w w'
        → IsLog (content_of w.events)
        → Reads (finish codec false text p e w') (event_for w.release e)
    finish-Reads p e w w' ok (same, id, _, _) log =
        let v : ChangeEvent = event_for w.release e in
        let (t, m, l) = fits v in
        let (read, _) = record-latest codec lawful w.events v t log m l in
        let wrote : (finish codec false text p e w').events
            ≡ (record_change_event codec false (works codec) w.events v).1 =
          finish-events false p e w'
          ∙ (ap
                (λ (fs : Fs).
                  (record_change_event codec false fs w'.events (event_for w'.release e)).1)
                ok
              ∙ (ap
                    (λ (f : File).
                      (record_change_event codec false (works codec) f (event_for w'.release e)).1)
                    same
                  ∙ ap
                      (λ (i : ℕ).
                        (record_change_event codec false (works codec) w.events
                          (record { release_id = i; status = status_for e })).1)
                      id)) in
        ap (get_latest codec false true) wrote ∙ read

    execute_steps-Reads :
        (p q : Report) (s : Option (List ℕ)) (steps : List (Option (List ℕ))) (w : World)
        → q.fs ≡ works codec
        → is_processing w.release.change_status ≡ true
        → IsLog (content_of w.events)
        → let (e, _, w') = execute_steps codec false text p q (s ∷ steps) w in
          Reads w' (event_for w.release e)
    unfolding execute_steps
    execute_steps-Reads p q s steps w ok on log =
        finish-Reads q ((run_steps codec false text (s ∷ steps)).0) w
          ((send_version_change_messaging codec false text p w).1) ok
          (first_report-Keeps false p w on) log

    -- The release as `Execute` begins with it.
    abbrev pub begun : World → World
    begun w = record w {
      release = record w.release {
        app_cursor_id = w.release.cursor_id;
        change_status = processing;
      };
    }

    -- The comparison, which `Execute` makes in the mode `watch`.
    abbrev pub compared : Latest EventMeta → Bool → World → Compared × Release
    compared meta opens w =
        compare_release (begun w).release meta (get_latest codec false opens w.events)

    -- `Execute` skips the release: no step is run, and nothing is sent or recorded.
    abbrev pub Skipped : Latest EventMeta → Bool → World → Option Err × ℕ × World → Type 0
    Skipped meta opens w (e, n, w') =
        ((compared meta opens w).0 ≡ skip)
        × (e ≡ none)
        × (n ≡ 0)
        × (w'.events ≡ w.events)
        × (w'.sent ≡ w.sent)

    abbrev pub Recorded : World → Option Err × ℕ × World → Type 0
    Recorded w (e, _, w') = Reads w' (event_for w.release e)

    compare-release_id :
        (r : Release) (meta : Latest EventMeta) (event : Latest ChangeEvent)
        → ((compare_release r meta event).1).release_id ≡ r.release_id
    unfolding compare_release compare_event
    compare-release_id r meta event = ground arith

    compare-change_status :
        (r : Release) (meta : Latest EventMeta) (event : Latest ChangeEvent)
        → ((compare_release r meta event).1).change_status ≡ r.change_status
    unfolding compare_release compare_event
    compare-change_status r meta event = ground arith

    compared-Recorded :
        (p q : Report) (s : Option (List ℕ)) (steps : List (Option (List ℕ)))
        (meta : Latest EventMeta) (opens : Bool) (w : World) (c : Compared) (r : Release)
        → q.fs ≡ works codec
        → (compared meta opens w).0 ≡ c
        → r.release_id ≡ w.release.release_id
        → r.change_status ≡ processing
        → IsLog (content_of w.events)
        → let w' : World = record w { release = r } in
          let o : Option Err × ℕ × World = elim c [
            | skip ↦ (none, 0, record w' { release = record r { change_status = success } })
            | go ↦ execute_steps codec false text p q (s ∷ steps) w'
            | compare_failed e ↦
                (some (log_failed e), 0, finish codec false text q (some (log_failed e)) w')
          ] in
          Skipped meta opens w o ⊎ Recorded w o
    unfolding is_processing
    compared-Recorded p q s steps meta opens w skip r ok is id on log =
        inl (is, refl, refl, refl, refl)
    compared-Recorded p q s steps meta opens w go r ok is id on log = inr (
        rw⁻¹ id
          (execute_steps-Reads p q s steps (record w { release = r }) ok (ap is_processing on) log))
    compared-Recorded p q s steps meta opens w (compare_failed e) r ok is id on log = inr (
        rw⁻¹ id (
          finish-Reads q (some (log_failed e)) (record w { release = r }) (record w { release = r })
            ok (refl, refl, refl, refl) log))

    -- `Execute` with one step or more, and files that can be written: either the comparison skips
    -- the release, and then no step is run, no error returned, and nothing sent or recorded; or the
    -- change event that is read next is the release's, a success where `Execute` returns no error and
    -- a failure where it returns one. This holds whatever becomes of the messages. The codec is as in
    -- the file's round trip, and the file of events has whole lines.
    pub execute-Recorded :
        (p q : Report) (s : Option (List ℕ)) (steps : List (Option (List ℕ)))
        (meta : Latest EventMeta) (opens : Bool) (w : World)
        → q.fs ≡ works codec
        → IsLog (content_of w.events)
        → let o = execute codec false text meta p q (s ∷ steps) opens w in
          Skipped meta opens w o ⊎ Recorded w o
    unfolding execute is_processing
    execute-Recorded p q s steps meta opens w ok log =
        elim (Bool-cases (not (is_watch w.release.mode))) [
          | inl pulls ↦ rw pulls (inr (execute_steps-Reads p q s steps (begun w) ok refl log))
          | inr watches ↦ rw watches (
              compared-Recorded p q s steps meta opens w ((compared meta opens w).0)
                ((compared meta opens w).1) ok refl
                (compare-release_id (begun w).release meta (get_latest codec false opens w.events))
                (compare-change_status (begun w).release meta
                  (get_latest codec false opens w.events))
                log)
        ]
