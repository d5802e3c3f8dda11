-- ===== src/Watch/Session.antt =====
-- client/watch.go: the watcher with its subscribers: `Subscribe`, `StartWatch`, `StopWatch`,
-- `OnReleaseChange`; client/reconnect.go: `waitForReconnectSignal` and `tryReconnect`. A call on the
-- queue of a subscriber is run to its end here; Watch/Queue interleaves its steps.
pub mod Dispatch
pub mod Resumed
pub mod Tests
use bscp_go.Prelude.{
  ℕ, zero, suc, Bool, true, false, not, ◌&&◌, ◌||◌, Option, none, some, List, [], ◌∷◌, ◌++◌, map,
  ◌==◌, if◌then◌else◌, bytes_eq, Text, is_empty,
}
use bscp_go.Prelude.Options.{◌>>=◌}
use bscp_go.Labels.{Map, merge_labels, deep_equal}
use bscp_go.Options.{Options, AppOptions, no_app_options, AppSetter, apply_all}
use bscp_go.Watch.Queue.{
  idle, Queue, Next, ran, stuck, panics, opened, enter, go_on, swap_closed, close_channel,
  reset_for_reconnect,
}
use bscp_go.Watch.Stream.{Watcher}
use bscp_go.Watch.Subscribers.{
  unset, no_cursor, generated, numbered, ConfigItem, Subscriber, Event, AppMeta,
}

-- A subscriber and its queue.
pub record Seat : Type 0 where
  pub subscriber : Subscriber
  pub queue : Queue Event

-- `stream` has the channel of the signals. `cancel_set` says that `w.cancel` is not nil, `running`
-- that the context of the last start is not done, and `sent` lists the payloads of the watches.
pub record Session : Type 0 where
  pub opts : Options
  pub seats : List Seat
  pub stream : Watcher Event
  pub cancel_set : Bool
  pub running : Bool
  pub sent : List (List AppMeta)

abbrev pub new_subscriber : Text → AppOptions → Options → Subscriber
new_subscriber app options opts = record {
  opts = options;
  app = app;
  current_release_id = 0;
  target_release_id = 0;
  labels = merge_labels (opts.labels ∷ options.labels ∷ []);
  uid = options.uid;
  match_ = options.match_;
  current_config_items = [];
  cursor_id = no_cursor;
  release_change_status = unset;
  download_file_num = 0;
  download_file_size = 0;
}

-- The options of `Subscribe`: without a uid, the fingerprint stands in.
unfoldable pub app_options : List AppSetter → Options → AppOptions
app_options sets opts =
    let options = apply_all sets no_app_options in
    if is_empty options.uid then record options { uid = opts.fingerprint } else options

-- `Subscribe`
unfoldable pub subscribe : Text → List AppSetter → Session → Session
unfolding app_options
subscribe app sets w =
    let seat : Seat = record {
      subscriber = new_subscriber app (app_options sets w.opts) w.opts;
      queue = opened;
    } in
    record w { seats = w.seats ++ seat ∷ [] }

-- What a whole call leaves of the queue; `none` if it panics or waits for the mutex.
abbrev pub finished : Next Event → Option (Queue Event)
finished (ran q) = some q
finished stuck = none
finished panics = none

-- The steps of `enqueueLatestEvent` that are left, at most three.
pub go_to_end : ℕ → Queue Event → Option (Queue Event)
go_to_end zero q = some q
go_to_end (suc n) q =
    let rest = λ (q' : Queue Event). go_to_end n q' in
    elim q.pc [ idle ↦ some q | _ ↦ finished (go_on q.pc q) >>= rest ]

-- `enqueueLatestEvent`, with no other goroutine between its steps.
pub enqueue_latest_event : Event → Queue Event → Option (Queue Event)
unfolding go_to_end
enqueue_latest_event e q = finished (enter e q) >>= go_to_end 3

-- The payload of a release event: the instance's app, uid and labels (`none` for a nil map), the
-- cursor, and the release.
pub record Payload : Type 0 where
  pub app : Text
  pub uid : Text
  pub labels : Option (Map Text)
  pub cursor_id : ℕ
  pub release_id : ℕ
  pub ci_metas : List ConfigItem

pub is_addressee : Payload → Subscriber → Bool
is_addressee pl s = bytes_eq s.app pl.app && bytes_eq s.uid pl.uid && deep_equal s.labels pl.labels

abbrev pub event_of : Payload → Event
event_of pl = record {
  cursor_id = if pl.cursor_id == 0 then generated else numbered pl.cursor_id;
  release_id = pl.release_id;
  ci_metas = pl.ci_metas;
}

-- The loop of `OnReleaseChange`.
pub dispatch : Payload → List Seat → Option (List Seat)
dispatch pl [] = some []
dispatch pl (seat ∷ seats) =
    let rest = dispatch pl seats in
    do
      queue ←
          (if is_addressee pl seat.subscriber
            then enqueue_latest_event (event_of pl) seat.queue
            else some seat.queue)
      others ← rest
      some (record seat { queue = queue } ∷ others)

-- `OnReleaseChange`; the payload is `none` if it cannot be decoded.
pub on_release_change : Option Payload → Session → Option Session
unfolding dispatch
on_release_change none w = some w
on_release_change (some pl) w = do seats ← dispatch pl w.seats; some (record w { seats = seats })

-- A call on the queue of every subscriber.
pub each_queue : (Queue Event → Option (Queue Event)) → List Seat → Option (List Seat)
each_queue call [] = some []
each_queue call (seat ∷ seats) =
    let rest = each_queue call seats in
    do queue ← call seat.queue; others ← rest; some (record seat { queue = queue } ∷ others)

abbrev pub reset_call : Queue Event → Option (Queue Event)
reset_call q = finished (reset_for_reconnect q)

-- `closeEventQueue`, run to its end.
pub close_event_queue : Queue Event → Option (Queue Event)
close_event_queue q =
    if q.closed then some q else (finished (swap_closed q) >>= λ q'. finished (close_channel q'))

-- A subscriber in the payload of `StartWatch`.
unfoldable pub watch_meta : Seat → AppMeta
watch_meta seat = record {
  app = seat.subscriber.app;
  uid = seat.subscriber.uid;
  labels = seat.subscriber.labels;
  match_ = seat.subscriber.match_;
  current_release_id = seat.subscriber.current_release_id;
  target_release_id = 0;
  total_file_size = 0;
  total_file_num = 0;
}

pub data StartErr : Type 0 where
  encode_failed watch_failed : StartErr

-- What a start meets: whether the payload is encoded, and whether the server accepts the watch.
pub record Start : Type 0 where
  pub encoded : Bool
  pub accepted : Bool

-- `StartWatch` once the queues are reset.
pub started : Start → Session → List Seat → Option (Option StartErr × Session)
unfolding watch_meta
started st w seats =
    let w' = record w { seats = seats; cancel_set = true; running = false } in
    if not st.encoded
    then some (some encode_failed, w')
    else if not st.accepted
    then some (some watch_failed, w')
    else some (none, record w' { running = true; sent = w.sent ++ map watch_meta seats ∷ [] })

-- `StartWatch`
pub start_watch : Start → Session → Option (Option StartErr × Session)
unfolding started
start_watch st w = each_queue reset_call w.seats >>= started st w

-- `StopWatch`
unfoldable pub stop_watch : Session → Option Session
unfolding each_queue close_event_queue
stop_watch w = if not w.cancel_set then some w else do
  seats ← each_queue close_event_queue w.seats
  some (record w { seats = seats; running = false })

-- Whether one of the dials of `tryReconnect` succeeds.
pub redial : List Bool → Bool
redial [] = false
redial (ok ∷ more) = ok || redial more

-- The second loop of `tryReconnect`; `false` if it has not ended.
pub restart : List Start → Session → Option (Bool × Session)
unfolding start_watch
restart [] w = some (false, w)
restart (st ∷ sts) w =
    let again = λ (w' : Session). restart sts w' in
    do (err, w') ← start_watch st w; elim err [ none ↦ some (true, w') | some e ↦ again w' ]

-- `tryReconnect`
pub try_reconnect : List Bool → List Start → Session → Option (Bool × Session)
try_reconnect dials starts w = if redial dials then restart starts w else some (false, w)

-- `waitForReconnectSignal`, once a signal is there: it is taken, the watch is stopped and made anew.
pub on_signal : List Bool → List Start → Session → Option (Bool × Session)
on_signal dials starts w =
    let stream = record w.stream { reconnect_chan = none } in
    stop_watch (record w { stream = stream }) >>= try_reconnect dials starts

-- `waitForReconnectSignal`: a `select` of the two channels, with what it finds.
pub wait_for_reconnect_signal : Bool → List Bool → List Start → Session → Option (Bool × Session)
unfolding on_signal
wait_for_reconnect_signal takes_done dials starts w =
    if takes_done then some (false, w) else on_signal dials starts w
