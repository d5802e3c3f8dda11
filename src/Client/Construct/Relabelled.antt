-- ===== src/Client/Construct/Relabelled.antt =====
-- `ResetLabels`: the labels that the server is sent next, and those of a watcher that is added next.
use bscp_go.Options.{Options, no_app_options, AppSetter, apply_all}
use bscp_go.Watch.Stream.{labels_reset, Watcher, notify_reconnect}
use bscp_go.Watch.Session.Resumed.{some_accepted, on_signal-resumed}
use bscp_go.Watch.Session.Dispatch.{AllQuiet}
use bscp_go.Prelude.{
  ◌≡◌, refl, Bool, true, false, Option, some, List, [], ◌∷◌, ◌++◌, map, arith, is_none, Text,
}
use bscp_go.Labels.{Map, lookup, merge_labels, IsMap}
use bscp_go.Labels.Priority.{or_else, merge_labels-lookup}
use bscp_go.Watch.Subscribers.{Event, reset_labels, AppMeta}
use bscp_go.Watch.Session.{Seat, Session, app_options, watch_meta, Start, redial, on_signal}
use bscp_go.Client.Construct.{Client, add_watcher, relabel, reset_client_labels}

-- The label that a subscriber sends for a key: the app's own, and else the new one.
abbrev pub new_label : Map Text → Seat → Text → Option Text
new_label labels seat j = or_else (lookup j seat.subscriber.opts.labels) (lookup j labels)

-- A payload has, in the subscribers' order, their apps, uids and releases, and the new labels.
abbrev pub Relabels : Map Text → List Seat → List AppMeta → Type 0
Relabels labels [] [] = Unit {0}
Relabels labels [] (m ∷ ms) = ⊥
Relabels labels (seat ∷ seats) [] = ⊥
Relabels labels (seat ∷ seats) (m ∷ ms) =
    (m.app ≡ seat.subscriber.app)
    × (m.uid ≡ seat.subscriber.uid)
    × (m.current_release_id ≡ seat.subscriber.current_release_id)
    × ((j : Text) → lookup j m.labels ≡ new_label labels seat j)
    × Relabels labels seats ms

-- The labels of every subscriber's app are a map.
abbrev pub AppLabels : List Seat → Type 0
AppLabels [] = Unit {0}
AppLabels (seat ∷ seats) = IsMap seat.subscriber.opts.labels × AppLabels seats

metas-Relabels :
    (labels : Map Text) (seats : List Seat)
    → IsMap labels
    → AppLabels seats
    → Relabels labels seats (map watch_meta (map (relabel labels) seats))
unfolding watch_meta reset_labels
metas-Relabels labels [] d a = tt
metas-Relabels labels (seat ∷ seats) d a = (
  refl,
  refl,
  refl,
  (λ j. merge_labels-lookup j (labels ∷ seat.subscriber.opts.labels ∷ []) (d, (a.0, tt))),
  metas-Relabels labels seats d a.1,
)

relabel-AllQuiet :
    (labels : Map Text) (seats : List Seat) → AllQuiet seats → AllQuiet (map (relabel labels) seats)
relabel-AllQuiet labels [] h = tt
relabel-AllQuiet labels (seat ∷ seats) h = (h.0, relabel-AllQuiet labels seats h.1)

signal_pending :
    (w : Watcher Event) → is_none (notify_reconnect labels_reset w).reconnect_chan ≡ false
unfolding notify_reconnect
signal_pending w = ground arith

-- After `ResetLabels` a signal to reconnect is pending. If then some dial succeeds and some watch
-- is accepted, the watch runs again, and the server was sent each subscriber with the new labels, a
-- label of the app's own in the place of a new one. The watch was started, no goroutine is at work
-- on its queues, and the labels, the new and the apps' own, are maps with no key twice.
pub reset-Relabels :
    (labels : Map Text) (c : Client) (dials : List Bool) (starts : List Start)
    → c.watcher.cancel_set ≡ true
    → AllQuiet c.watcher.seats
    → redial dials ≡ true
    → some_accepted starts ≡ true
    → IsMap labels
    → AppLabels c.watcher.seats
    → let w = (reset_client_labels labels c).watcher in
      (is_none w.stream.reconnect_chan ≡ false)
      × ((w' : Session) × (metas : List AppMeta) × (on_signal dials starts w ≡ some (true, w'))
          × (w'.running ≡ true)
          × (w'.sent ≡ c.watcher.sent ++ metas ∷ [])
          × Relabels labels c.watcher.seats metas)
unfolding reset_client_labels
reset-Relabels labels c dials starts on h dialled ok d a =
    let w : Session = (reset_client_labels labels c).watcher in
    (
      signal_pending c.watcher.stream,
      (
        _,
        map watch_meta w.seats,
        on_signal-resumed dials starts w on (relabel-AllQuiet labels c.watcher.seats h) dialled ok,
        refl,
        refl,
        metas-Relabels labels c.watcher.seats d a,
      ),
    )

app_options-labels :
    (sets : List AppSetter) (o : Options)
    → (app_options sets o).labels ≡ (apply_all sets no_app_options).labels
unfolding app_options
app_options-labels sets o = ground arith

-- A watcher that is added after `ResetLabels` has the labels from before: the app's own, and else those
-- that the watcher's options have had since `New`. The labels that were reset to do not matter.
pub add-reset :
    (labels : Map Text) (c : Client) (app : Text) (sets : List AppSetter)
    → IsMap c.watcher.opts.labels
    → IsMap (apply_all sets no_app_options).labels
    → (seat : Seat) × ((add_watcher app sets (reset_client_labels labels c)).watcher.seats
        ≡ map (relabel labels) c.watcher.seats ++ seat ∷ [])
      × ((j : Text)
          → lookup j seat.subscriber.labels
            ≡ or_else
                (lookup j (apply_all sets no_app_options).labels)
                (lookup j c.watcher.opts.labels))
unfolding add_watcher reset_client_labels
add-reset labels c app sets d e = (_, refl, λ j. own_labels j)
  where
    own_labels :
        (j : Text)
        → lookup j
            (merge_labels (c.watcher.opts.labels ∷ (app_options sets c.watcher.opts).labels ∷ []))
          ≡ or_else
              (lookup j (apply_all sets no_app_options).labels)
              (lookup j c.watcher.opts.labels)
    own_labels j = rw (app_options-labels sets c.watcher.opts) (
        merge_labels-lookup j (c.watcher.opts.labels ∷ (apply_all sets no_app_options).labels ∷ [])
          (d, (e, tt)))
