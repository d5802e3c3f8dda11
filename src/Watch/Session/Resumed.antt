-- ===== src/Watch/Session/Resumed.antt =====
-- `StopWatch`, `StartWatch` and the reconnection: what a watch is after them.
use bscp_go.Prelude.{
  ◌≡◌, refl, ap, ◌∙◌, inl, inr, Bool, true, false, ◌&&◌, ◌||◌, Option, none, some, List, [], ◌∷◌,
  ◌++◌, map, arith, if◌then◌else◌, Bool-cases,
}
use bscp_go.Watch.Queue.{Queue, swap_closed, close_channel, slot_list, reset_for_reconnect}
use bscp_go.Watch.Subscribers.{Event}
use bscp_go.Watch.Session.{
  Seat, Session, each_queue, reset_call, close_event_queue, watch_meta, StartErr, encode_failed,
  watch_failed, Start, started, start_watch, stop_watch, redial, restart, try_reconnect, on_signal,
}
use bscp_go.Watch.Session.Dispatch.{IsQuiet, AllQuiet}

abbrev on_queue : (Queue Event → Queue Event) → Seat → Seat
on_queue f seat = record seat { queue = f seat.queue }

each_queue-map :
    (call : Queue Event → Option (Queue Event)) (f : Queue Event → Queue Event) (seats : List Seat)
    → ((q : Queue Event) → IsQuiet q → call q ≡ some (f q))
    → AllQuiet seats
    → each_queue call seats ≡ some (map (on_queue f) seats)
unfolding each_queue
each_queue-map call f [] same h = refl
each_queue-map call f (seat ∷ seats) same h =
    simp (same seat.queue h.0, each_queue-map call f seats same h.1) refl

map-AllQuiet :
    (f : Queue Event → Queue Event) (seats : List Seat)
    → ((q : Queue Event) → IsQuiet q → IsQuiet (f q))
    → AllQuiet seats
    → AllQuiet (map (on_queue f) seats)
map-AllQuiet f [] keeps h = tt
map-AllQuiet f (seat ∷ seats) keeps h = (keeps seat.queue h.0, map-AllQuiet f seats keeps h.1)

-- The queue behind `closeEventQueue`.
abbrev pub shut_down : Queue Event → Queue Event
shut_down q = record q { closed = true; shut = true }

close_lem : (q : Queue Event) → IsQuiet q → close_event_queue q ≡ some (shut_down q)
unfolding close_event_queue swap_closed close_channel
close_lem q h = elim (Bool-cases q.closed) [ inl e ↦ ground arith | inr e ↦ ground arith ]

shut_down-IsQuiet : (q : Queue Event) → IsQuiet q → IsQuiet (shut_down q)
shut_down-IsQuiet q h = ground arith

-- The queue behind `resetForReconnect`: open; if it was closed, with a new empty channel, and what was
-- buffered left to the goroutine of the old one.
abbrev pub reopen : Queue Event → Queue Event
reopen q =
    if q.closed
    then record q { closed = false; slot = none; shut = false; left = q.left ++ slot_list q.slot }
    else q

reset_lem : (q : Queue Event) → IsQuiet q → reset_call q ≡ some (reopen q)
unfolding reset_for_reconnect
reset_lem q h = ground arith

reopen-IsQuiet : (q : Queue Event) → IsQuiet q → IsQuiet (reopen q)
reopen-IsQuiet q h = (ground arith, ground arith, ground arith)

reopen_again : (q : Queue Event) → reopen (reopen q) ≡ reopen q
reopen_again q = ground arith

map-reopen_again :
    (seats : List Seat)
    → map (on_queue reopen) (map (on_queue reopen) seats) ≡ map (on_queue reopen) seats
map-reopen_again [] = refl
map-reopen_again (seat ∷ seats) = simp (reopen_again seat.queue, map-reopen_again seats) refl

-- Some start is encoded and accepted.
abbrev pub some_accepted : List Start → Bool
some_accepted [] = false
some_accepted (st ∷ sts) = (st.encoded && st.accepted) || some_accepted sts

-- The session once a watch is accepted.
abbrev resumed : Session → Session
resumed w = record w {
  seats = map (on_queue reopen) w.seats;
  cancel_set = true;
  running = true;
  sent = w.sent ++ map watch_meta (map (on_queue reopen) w.seats) ∷ [];
}

start_lem :
    (st : Start) (w : Session)
    → AllQuiet w.seats
    → start_watch st w ≡ started st w (map (on_queue reopen) w.seats)
unfolding start_watch
start_lem st w h = simp (each_queue-map reset_call reopen w.seats reset_lem h) refl

-- The session behind a start that fails.
abbrev stalled : Session → Session
stalled w = record w { seats = map (on_queue reopen) w.seats; cancel_set = true; running = false }

start-stalled :
    (st : Start) (w : Session)
    → AllQuiet w.seats
    → (st.encoded && st.accepted) ≡ false
    → (e : StartErr) × (start_watch st w ≡ some (some e, stalled w))
unfolding started
start-stalled st w h bad = elim (Bool-cases st.encoded) [
  | inl e ↦ (watch_failed, start_lem st w h ∙ ground arith)
  | inr e ↦ (encode_failed, start_lem st w h ∙ ground arith)
]

start-resumed :
    (st : Start) (w : Session)
    → AllQuiet w.seats
    → (st.encoded && st.accepted) ≡ true
    → start_watch st w ≡ some (none, resumed w)
unfolding started
start-resumed st w h good = start_lem st w h ∙ ground arith

resumed-stalled : (w : Session) → resumed (stalled w) ≡ resumed w
resumed-stalled w = simp (map-reopen_again w.seats) refl

restart-resumed :
    (starts : List Start) (w : Session)
    → AllQuiet w.seats
    → some_accepted starts ≡ true
    → restart starts w ≡ some (true, resumed w)
unfolding restart
restart-resumed [] w h ok = cc
restart-resumed (st ∷ sts) w h ok = elim (Bool-cases (st.encoded && st.accepted)) [
  | inl good ↦ simp (start-resumed st w h good) refl
  | inr bad ↦
      let (e, failed_start) = start-stalled st w h bad in
      let later : restart sts (stalled w) ≡ some (true, resumed (stalled w)) =
        restart-resumed sts (stalled w) (map-AllQuiet reopen w.seats reopen-IsQuiet h)
          (ground arith) in
      simp failed_start (later ∙ ap (λ (v : Session). some (true, v)) (resumed-stalled w))
]

stop_lem :
    (w : Session)
    → w.cancel_set ≡ true
    → AllQuiet w.seats
    → stop_watch w ≡ some (record w { seats = map (on_queue shut_down) w.seats; running = false })
unfolding stop_watch
stop_lem w on h = simp (on, each_queue-map close_event_queue shut_down w.seats close_lem h) refl

-- The queue of a new channel: empty and open, and what was buffered is left to the old goroutine.
abbrev pub renew : Seat → Seat
renew seat = record seat {
  queue = record seat.queue {
    closed = false;
    slot = none;
    shut = false;
    left = seat.queue.left ++ slot_list seat.queue.slot;
  };
}

map-renew :
    (seats : List Seat) → map (on_queue reopen) (map (on_queue shut_down) seats) ≡ map renew seats
map-renew [] = refl
map-renew (seat ∷ seats) = simp (map-renew seats) refl

meta-renew : (seats : List Seat) → map watch_meta (map renew seats) ≡ map watch_meta seats
unfolding watch_meta
meta-renew [] = refl
meta-renew (seat ∷ seats) = simp (meta-renew seats) refl

-- Of a watch that was started, and whose queues no goroutine is at work on: on a signal, if some
-- dial succeeds and some watch is accepted, the watch runs again. Every queue is open and has a new
-- channel, no subscriber has changed, and the server was sent the app, uid, labels and current
-- release of each subscriber.
pub on_signal-resumed :
    (dials : List Bool) (starts : List Start) (w : Session)
    → w.cancel_set ≡ true
    → AllQuiet w.seats
    → redial dials ≡ true
    → some_accepted starts ≡ true
    → on_signal dials starts w
      ≡ some (
        true,
        record w {
          seats = map renew w.seats;
          stream = record w.stream { reconnect_chan = none };
          running = true;
          sent = w.sent ++ map watch_meta w.seats ∷ [];
        },
      )
unfolding on_signal try_reconnect
on_signal-resumed dials starts w on h dialled accepted_once =
    let w1 : Session = record w { stream = record w.stream { reconnect_chan = none } } in
    let w2 : Session = record w1 { seats = map (on_queue shut_down) w.seats; running = false } in
    let again : restart starts w2 ≡ some (true, resumed w2) =
      restart-resumed starts w2 (map-AllQuiet shut_down w.seats shut_down-IsQuiet h)
        accepted_once in
    let ends : on_signal dials starts w ≡ some (true, resumed w2) =
      simp (stop_lem w1 on h, dialled, again) refl in
    ends ∙ simp (meta-renew w.seats, map-renew w.seats, on) refl
