-- ===== src/Release/Steps.antt =====
-- client/types.go: `Execute`, `compareRelease`, `sendVersionChangeMessaging`, `recordChangeEvent`;
-- internal/util: `StrSlicesEqual` and `TruncateString`.
pub mod Recorded
pub mod Skips
mod Tests
use mathlib.Core.Option
use bscp_go.Prelude.{
  ℕ, ◌+◌, Bool, true, false, not, ◌&&◌, Option, none, some, List, [], ◌∷◌, ◌++◌, ltb, ◌==◌,
  if◌then◌else◌, length, take,
}
use bscp_go.Release.Log.{
  LogErr, Codec, Fs, File, Latest, latest, no_file, broken, record_change_event, get_latest,
}

pub data Status : Type 0 where
  event_success event_failed : Status

pub record EventMeta : Type 0 where
  pub release_id : ℕ
  pub config_matches : List ℕ

pub record ChangeEvent : Type 0 where
  pub release_id : ℕ
  pub status : Status

-- `ReleaseChangeStatus`
pub data Change : Type 0 where
  processing success failed : Change

pub data Mode : Type 0 where
  watch pull : Mode

-- A release as far as `Execute` reads and writes it: `AppMate`'s fields, and what is reported with
-- each message. `detail` is `FailedDetailReason`.
pub record Release : Type 0 where
  pub release_id : ℕ
  pub match_ : List ℕ
  pub mode : Mode
  pub current_release_id : ℕ
  pub change_status : Change
  pub detail : List ℕ
  pub cursor_id : List ℕ
  pub app_cursor_id : List ℕ

-- `StrSlicesEqual`, by counting; a text is a number here.
pub count : ℕ → List ℕ → ℕ
count x [] = 0
count x (y ∷ ys) = let rest = count x ys in if x == y then rest + 1 else rest

pub same_counts : List ℕ → List ℕ → List ℕ → Bool
unfolding count
same_counts a b [] = true
same_counts a b (x ∷ xs) = (count x a == count x b) && same_counts a b xs

unfoldable pub str_slices_equal : List ℕ → List ℕ → Bool
unfolding same_counts
str_slices_equal a b = if not (length a == length b) then false else same_counts a b a

-- `TruncateString`, on runes; 46 is the dot.
unfoldable pub truncate_string : List ℕ → ℕ → List ℕ
truncate_string s n = if ltb n (length s) then take n s ++ (46 ∷ 46 ∷ 46 ∷ []) else s

-- What is reported: the status, its detail, and the release that is current.
pub record Message : Type 0 where
  pub status : Change
  pub detail : List ℕ
  pub current : ℕ

-- What one report meets: whether the file of change events can be opened, what writing it meets,
-- whether the message is encoded and accepted.
pub record Report : Type 0 where
  pub opens : Bool
  pub fs : Fs
  pub encoded : Bool
  pub accepted : Bool

-- The release, the file of change events, and the messages that were accepted.
pub record World : Type 0 where
  pub release : Release
  pub events : File
  pub sent : List Message

pub data Compared : Type 0 where
  skip : Compared
  go : Compared
  compare_failed : LogErr → Compared

unfoldable pub is_success : Status → Bool
is_success event_success = true
is_success event_failed = false

unfoldable pub is_watch : Mode → Bool
is_watch watch = true
is_watch pull = false

-- The last change event, where there is one, makes its release the current one.
pub adopt : Mode → Latest ChangeEvent → ℕ → ℕ
unfolding is_watch
adopt mode (latest e) current =
    if is_watch mode && ltb 0 e.release_id then e.release_id else current
adopt mode no_file current = current
adopt mode (broken e) current = current

-- `compareRelease`, with what `GetLatestMetadataFromFile` and `GetLatestChangeEventFromFile` return.
unfoldable pub compare_event : Release → EventMeta → Latest ChangeEvent → Compared × Release
unfolding is_success str_slices_equal
compare_event r meta (broken e) = (compare_failed e, r)
compare_event r meta no_file = (go, r)
compare_event r meta (latest event) =
    if (meta.release_id == r.release_id)
      && (str_slices_equal meta.config_matches r.match_)
      && (event.release_id == r.release_id)
      && is_success event.status
    then (skip, record r { current_release_id = r.release_id })
    else (go, record r { current_release_id = meta.release_id })

unfoldable pub compare_release :
    Release → Latest EventMeta → Latest ChangeEvent → Compared × Release
unfolding compare_event
compare_release r (broken e) event = (compare_failed e, r)
compare_release r no_file event = (go, r)
compare_release r (latest meta) event = compare_event r meta event

-- The status that `recordChangeEvent` writes.
pub status_of : Change → Status
status_of success = event_success
status_of processing = event_failed
status_of failed = event_failed

pub is_processing : Change → Bool
is_processing processing = true
is_processing success = false
is_processing failed = false

-- An error of a step, by its text, or of the files.
pub data Err : Type 0 where
  step_failed : List ℕ → Err
  log_failed : LogErr → Err
  encode_failed messaging_failed : Err

module _ (codec : Codec ChangeEvent) (dir_empty : Bool) (text : Err → List ℕ) where
  -- `recordChangeEvent`
  pub record_event : Fs → World → Option LogErr × World
  unfolding status_of
  record_event fs w =
      let event : ChangeEvent = record {
        release_id = w.release.release_id;
        status = status_of w.release.change_status;
      } in
      let (e, file) = record_change_event codec dir_empty fs w.events event in
      (e, record w { events = file })

  -- The body of `sendVersionChangeMessaging`.
  pub send_message : Report → World → Option Err × World
  unfolding adopt
  send_message p w =
      let detail = truncate_string w.release.detail 1024 in
      let last : Latest ChangeEvent = get_latest codec dir_empty p.opens w.events in
      let current = adopt w.release.mode last w.release.current_release_id in
      let r : Release = record w.release { detail = detail; current_release_id = current } in
      let message : Message = record {
        status = r.change_status;
        detail = r.detail;
        current = current;
      } in
      elim last [
        | broken e ↦ (some (log_failed e), record w { release = r })
        | _ ↦
            if not p.encoded
            then (some encode_failed, record w { release = r })
            else if not p.accepted
            then (some messaging_failed, record w { release = r })
            else (none, record w { release = r; sent = w.sent ++ (message ∷ []) })
      ]

  -- Its `defer`: the error of the record is the one returned.
  pub send_version_change_messaging : Report → World → Option Err × World
  unfolding record_event is_processing
  send_version_change_messaging p w =
      let (e, w') = send_message p w in
      if is_processing w'.release.change_status
      then (e, w')
      else let (e', w'') = record_event p.fs w' in (Option.map log_failed e', w'')

  -- The `defer` of `Execute`, with the variable `err`.
  pub finish : Report → Option Err → World → World
  unfolding send_version_change_messaging
  finish p none w =
      (send_version_change_messaging p
        (record w { release = record w.release { change_status = success } })).1
  finish p (some e) w =
      (send_version_change_messaging p
        (record w { release = record w.release { change_status = failed; detail = text e } })).1

  -- The loop over the steps: the first error, or `none`, and how many were run.
  pub run_steps : List (Option (List ℕ)) → Option Err × ℕ
  run_steps [] = (none, 0)
  run_steps (some e ∷ steps) = (some (step_failed e), 1)
  run_steps (none ∷ steps) = let (e, n) = run_steps steps in (e, n + 1)

  -- `Execute` behind the comparison. Without steps, `err` is still the error of the first report.
  pub execute_steps : Report → Report → List (Option (List ℕ)) → World → Option Err × ℕ × World
  unfolding finish run_steps
  execute_steps p q [] w =
      let (e, w') = send_version_change_messaging p w in (none, 0, finish q e w')
  execute_steps p q (s ∷ steps) w =
      let (_, w') = send_version_change_messaging p w in
      let (e, n) = run_steps (s ∷ steps) in (e, n, finish q e w')

  -- `Execute`: the error it returns, how many steps it runs, and what it leaves.
  pub execute :
      Latest EventMeta
      → Report
      → Report
      → List (Option (List ℕ))
      → (opens : Bool) → World
      → Option Err × ℕ × World
  unfolding execute_steps is_watch
  execute meta p q steps opens w =
      let begun : Release = record w.release {
        app_cursor_id = w.release.cursor_id;
        change_status = processing;
      } in
      let start : World = record w { release = begun } in
      if not (is_watch w.release.mode)
      then execute_steps p q steps start
      else let last : Latest ChangeEvent = get_latest codec dir_empty opens w.events in
        let (c, r) = compare_release begun meta last in
        let compared : World = record w { release = r } in
        elim c [
          | skip ↦ (none, 0, record compared { release = record r { change_status = success } })
          | go ↦ execute_steps p q steps compared
          | compare_failed e ↦ (some (log_failed e), 0, finish q (some (log_failed e)) compared)
        ]
