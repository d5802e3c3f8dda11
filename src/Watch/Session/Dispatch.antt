-- ===== src/Watch/Session/Dispatch.antt =====
-- `OnReleaseChange`: which subscribers an event reaches.
use bscp_go.Prelude.{
  ◌≡◌, refl, ◌↔◌, inl, inr, true, ◌&&◌, some, List, [], ◌∷◌, ◌++◌, map, arith, if◌then◌else◌,
  Bool-cases, Option-cases, bytes_eq, bytes_eq_sound, bytes_eq_refl, Text,
}
use bscp_go.Labels.{Map, IsMap, deep_equal}
use bscp_go.Labels.Equal.{Agree, deep_equal_lem}
use bscp_go.Watch.Queue.{idle, Queue, enter, go_on}
use bscp_go.Watch.Subscribers.{Subscriber, Event}
use bscp_go.Watch.Session.{
  Seat, Session, enqueue_latest_event, Payload, is_addressee, event_of, dispatch, on_release_change,
}

-- A queue that no goroutine is at work on.
abbrev pub IsQuiet : Queue Event → Type 0
IsQuiet q = (q.pc ≡ idle) × (q.shut ≡ q.closed) × (q.closers ≡ 0)

abbrev pub AllQuiet : List Seat → Type 0
AllQuiet [] = Unit {0}
AllQuiet (seat ∷ seats) = IsQuiet seat.queue × AllQuiet seats

-- The queue with the event in its buffer, in the place of any other; a closed queue only lets it pass.
abbrev pub with_event : Event → Queue Event → Queue Event
with_event e q =
    if q.closed
    then record q { arrived = q.arrived ++ e ∷ [] }
    else record q { slot = some e; arrived = q.arrived ++ e ∷ [] }

enqueue_lem :
    (e : Event) (q : Queue Event) → IsQuiet q → enqueue_latest_event e q ≡ some (with_event e q)
unfolding enqueue_latest_event enter go_on
enqueue_lem e q h = elim (Bool-cases q.closed) [
  | inl shut ↦ ground arith
  | inr on ↦ elim (Option-cases q.slot) [
    | inl empty ↦ ground arith
    | inr (old, busy) ↦ ground arith
  ]
]

-- A subscriber that an event is for has it in its buffer, and any other is as before.
abbrev pub deliver : Payload → Seat → Seat
deliver pl seat =
    if is_addressee pl seat.subscriber
    then record seat { queue = with_event (event_of pl) seat.queue }
    else seat

dispatch-deliver :
    (pl : Payload) (seats : List Seat)
    → AllQuiet seats
    → dispatch pl seats ≡ some (map (deliver pl) seats)
unfolding dispatch
dispatch-deliver pl [] h = refl
dispatch-deliver pl (seat ∷ seats) h = elim (Bool-cases (is_addressee pl seat.subscriber)) [
  | inl for_it ↦
      simp (for_it, enqueue_lem (event_of pl) seat.queue h.0, dispatch-deliver pl seats h.1) refl
  | inr other ↦ simp (other, dispatch-deliver pl seats h.1) refl
]

-- While no goroutine is at work on the queues, an event that can be decoded is put in the buffer of
-- every subscriber that it is for, in the place of the event that waited there, unless the queue is
-- closed; all else stays as it is, and no call panics.
pub on_release_change-deliver :
    (pl : Payload) (w : Session)
    → AllQuiet w.seats
    → on_release_change (some pl) w ≡ some (record w { seats = map (deliver pl) w.seats })
unfolding on_release_change
on_release_change-deliver pl w h = rw (dispatch-deliver pl w.seats h) refl

-- The subscriber's app and uid are the event's, and its labels have the event's values at every key.
abbrev pub SameInstance : Payload → Map Text → Subscriber → Type 0
SameInstance pl labels s = (s.app ≡ pl.app) × (s.uid ≡ pl.uid) × Agree s.labels labels

-- An event with labels is for exactly the subscribers of the same app, uid and labels, where both
-- labels are maps with no key twice.
pub is_addressee-SameInstance :
    (pl : Payload) (labels : Map Text) (s : Subscriber)
    → pl.labels ≡ some labels
    → IsMap labels
    → IsMap s.labels
    → (is_addressee pl s ≡ true) ↔ SameInstance pl labels s
unfolding is_addressee
is_addressee-SameInstance pl labels s has d own =
    let (to, from) = deep_equal_lem s.labels labels own d in
    (
      λ h.
          let split : (bytes_eq s.app pl.app
                && bytes_eq s.uid pl.uid
                && deep_equal s.labels (some labels))
              ≡ true =
            rw has at h in
          (
            ground (arith, bytes_eq_sound s.app pl.app),
            ground (arith, bytes_eq_sound s.uid pl.uid),
            to (ground arith),
          ),
      λ h. rw has (ground (arith, from h.2, bytes_eq_refl s.app, bytes_eq_refl s.uid)),
    )
