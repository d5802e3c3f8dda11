-- ===== src/Watch/Session/Tests.antt =====
-- The theorems on a watch of two apps.
use bscp_go.Prelude.{◌≡◌, refl, ◌↔◌, true, false, none, some, List, [], ◌∷◌, map, Text, codes}
use bscp_go.Labels.{Map}
use bscp_go.Options.{no_options, no_app_options}
use bscp_go.Watch.Queue.{opened}
use bscp_go.Watch.Stream.{heartbeat_failed}
use bscp_go.Watch.Subscribers.{success, generated, Subscriber}
use bscp_go.Watch.Session.{
  Seat, Session, Payload, is_addressee, on_release_change, watch_meta, Start, redial, on_signal,
}
use bscp_go.Watch.Session.Dispatch.{
  AllQuiet, deliver, on_release_change-deliver, SameInstance, is_addressee-SameInstance,
}
use bscp_go.Watch.Session.Resumed.{renew, on_signal-resumed}

abbrev pub env_prod : Map Text
env_prod = (codes "env", codes "prod") ∷ []

abbrev pub subscriber_of : Text → Subscriber
subscriber_of app = record {
  opts = no_app_options;
  app = app;
  current_release_id = 4;
  target_release_id = 0;
  labels = env_prod;
  uid = codes "u";
  match_ = [];
  current_config_items = [];
  cursor_id = generated;
  release_change_status = success;
  download_file_num = 0;
  download_file_size = 0;
}

abbrev pub two_seats : List Seat
two_seats =
    record { subscriber = subscriber_of (codes "one"); queue = opened }
    ∷ record { subscriber = subscriber_of (codes "two"); queue = opened }
    ∷ []

pub two_seats-AllQuiet : AllQuiet two_seats
two_seats-AllQuiet = ((refl, refl, refl), ((refl, refl, refl), tt))

abbrev pub session : Session
session = record {
  opts = no_options;
  seats = two_seats;
  stream = record { reconnect_chan = some heartbeat_failed; started = [] };
  cancel_set = true;
  running = true;
  sent = [];
}

abbrev payload : Payload
payload = record {
  app = codes "two";
  uid = codes "u";
  labels = some env_prod;
  cursor_id = 7;
  release_id = 5;
  ci_metas = [];
}

on_release_change-deliver_example :
    on_release_change (some payload) session
    ≡ some (record session { seats = map (deliver payload) two_seats })
on_release_change-deliver_example = on_release_change-deliver payload session two_seats-AllQuiet

is_addressee-SameInstance_example :
    (is_addressee payload (subscriber_of (codes "two")) ≡ true)
    ↔ SameInstance payload env_prod (subscriber_of (codes "two"))
is_addressee-SameInstance_example =
    is_addressee-SameInstance payload env_prod (subscriber_of (codes "two")) refl (tt, tt) (tt, tt)

-- The first dial and the first watch fail.
abbrev pub starts : List Start
starts =
    record { encoded = true; accepted = false } ∷ record { encoded = true; accepted = true } ∷ []

pub second_dial : redial (false ∷ true ∷ []) ≡ true
unfolding redial
second_dial = refl

on_signal-resumed_example :
    on_signal (false ∷ true ∷ []) starts session
    ≡ some (
      true,
      record session {
        seats = map renew two_seats;
        stream = record { reconnect_chan = none; started = [] };
        sent = map watch_meta two_seats ∷ [];
      },
    )
on_signal-resumed_example =
    on_signal-resumed (false ∷ true ∷ []) starts session refl two_seats-AllQuiet second_dial refl
