-- ===== src/Client/Construct.antt =====
-- client/client.go: `New`, `AddWatcher`, `StartWatch`, `StopWatch`, `ResetLabels` and `Close`.
pub mod Made
pub mod Relabelled
mod Tests
use bscp_go.Prelude.{
  ℕ, Bool, false, not, ◌&&◌, ◌||◌, Option, none, some, List, [], ◌∷◌, ◌++◌, map, if◌then◌else◌,
  Text, codes, has_prefix,
}
use bscp_go.Labels.{Map}
use bscp_go.Options.{Options, no_options, Setter, AppSetter, apply_all}
use bscp_go.Watch.Stream.{labels_reset, notify_reconnect}
use bscp_go.Watch.Subscribers.{reset_labels}
use bscp_go.Watch.Session.{Seat, Session, subscribe, started, stop_watch}

-- The header's authorization, and the meta data that `New` encodes.
pub record Pairs : Type 0 where
  pub authorization : Text
  pub biz_id : ℕ
  pub fingerprint : Text

-- The client's own copy of the options, and the watcher, which keeps the options that `New` filled in.
pub record Client : Type 0 where
  pub pairs : Pairs
  pub opts : Options
  pub watcher : Session

-- How the calls of `New` go: the fingerprint, and whether each other call returns no error.
pub record Setup : Type 0 where
  pub fingerprint : Option Text
  pub meta_encoded : Bool
  pub upstream_made : Bool
  pub shakes_hands : Bool
  pub payload_decoded : Bool
  pub downloader_made : Bool
  pub file_cache_made : Bool
  pub kv_cache_made : Bool
  pub watcher_made : Bool

pub data NewErr : Type 0 where
  fingerprint_failed encode_meta_failed upstream_failed handshake_failed : NewErr
  decode_failed downloader_failed file_cache_failed kv_cache_failed watcher_failed : NewErr

-- `no_client`: neither a client nor an error.
pub data New : Type 0 where
  made : Client → New
  no_client : New
  failed : NewErr → New

pub start_options : Text → List Setter → Options
start_options fp sets = apply_all sets (record no_options { fingerprint = fp; uid = fp })

-- Whether some address begins with "test".
pub has_test_addr : List Text → Bool
has_test_addr [] = false
has_test_addr (addr ∷ addrs) = has_prefix addr (codes "test") || has_test_addr addrs

-- `initFileCache`
pub init_file_cache : Setup → Options → Option NewErr
init_file_cache st o =
    if o.file_cache.enabled && not st.file_cache_made then some file_cache_failed else none

-- `initKvCache`
pub init_kv_cache : Setup → Options → Option NewErr
init_kv_cache st o =
    if o.kv_cache.enabled && not st.kv_cache_made then some kv_cache_failed else none

-- `newWatcher`
pub new_watcher : Options → Session
new_watcher o = record {
  opts = o;
  seats = [];
  stream = record { reconnect_chan = none; started = [] };
  cancel_set = false;
  running = false;
  sent = [];
}

-- `New` from the first cache on.
pub with_caches : Setup → Options → Pairs → New
unfolding init_file_cache init_kv_cache new_watcher
with_caches st o pairs = elim (init_file_cache st o) [
  | some e ↦ failed e
  | none ↦ elim (init_kv_cache st o) [
    | some e ↦ failed e
    | none ↦
        if st.watcher_made
        then made (record { pairs = pairs; opts = o; watcher = new_watcher o })
        else failed watcher_failed
  ]
]

-- `New` from the connection on.
pub connect : Setup → Options → Pairs → New
unfolding with_caches
connect st o pairs =
    if not st.upstream_made
    then failed upstream_failed
    else if not st.shakes_hands
    then failed handshake_failed
    else if not st.payload_decoded
    then failed decode_failed
    else if not st.downloader_made
    then failed downloader_failed
    else with_caches st o pairs

-- `New` with the options filled in.
pub new_with : Setup → Options → New
unfolding connect has_test_addr
new_with st o =
    if not st.meta_encoded
    then failed encode_meta_failed
    else if has_test_addr o.feed_addrs
    then no_client
    else connect st o (record {
      authorization = codes "bearer " ++ o.token;
      biz_id = o.biz_id;
      fingerprint = o.fingerprint;
    })

-- `New`
pub new : Setup → List Setter → New
unfolding new_with start_options
new st sets = elim st.fingerprint [
  | none ↦ failed fingerprint_failed
  | some fp ↦ new_with st (start_options fp sets)
]

-- `AddWatcher`
pub add_watcher : Text → List AppSetter → Client → Client
unfolding subscribe
add_watcher app sets c = record c { watcher = subscribe app sets c.watcher }

abbrev pub relabel : Map Text → Seat → Seat
relabel labels seat = record seat { subscriber = reset_labels labels seat.subscriber }

-- `ResetLabels`. `labels_reset` stands for the reason of its signal.
pub reset_client_labels : Map Text → Client → Client
unfolding notify_reconnect
reset_client_labels labels c =
    let w = c.watcher in
    record c {
      opts = record c.opts { labels = labels };
      watcher = record w {
        seats = map (relabel labels) w.seats;
        stream = notify_reconnect labels_reset w.stream;
      };
    }

-- `Close`: whether the connection is closed without an error, and the client with the watch stopped;
-- `none` if the stop panics.
pub close : Bool → Client → Option (Bool × Client)
unfolding stop_watch
close closes c = elim (stop_watch c.watcher) [
  | none ↦ none
  | some w ↦ some (closes, record c { watcher = w })
]
