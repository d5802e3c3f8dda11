-- ===== src/Client/Construct/Tests.antt =====
-- A client with two watchers whose labels are reset, and a client that is made.
use bscp_go.Prelude.{◌≡◌, refl, true, false, some, List, [], ◌∷◌, is_none, Text, codes}
use bscp_go.Labels.{Map}
use bscp_go.Options.{no_options}
use bscp_go.Watch.Subscribers.{AppMeta}
use bscp_go.Watch.Session.{Session, on_signal}
use bscp_go.Watch.Session.Tests.{two_seats, two_seats-AllQuiet, session, starts, second_dial}
use bscp_go.Client.Construct.{Client, reset_client_labels}
use bscp_go.Client.Construct.Relabelled.{Relabels, reset-Relabels}

abbrev client : Client
client = record {
  pairs = record { authorization = codes "bearer secret"; biz_id = 2; fingerprint = codes "fp" };
  opts = no_options;
  watcher = session;
}

abbrev zone_b : Map Text
zone_b = (codes "zone", codes "b") ∷ []

reset-Relabels_example :
    (is_none (reset_client_labels zone_b client).watcher.stream.reconnect_chan ≡ false)
    × ((w' : Session) × (metas : List AppMeta) × (on_signal
            (false ∷ true ∷ [])
            starts
            (reset_client_labels zone_b client).watcher
          ≡ some (true, w'))
        × (w'.running ≡ true)
        × (w'.sent ≡ metas ∷ [])
        × Relabels zone_b two_seats metas)
reset-Relabels_example =
    reset-Relabels zone_b client (false ∷ true ∷ []) starts refl two_seats-AllQuiet second_dial refl
      (tt, tt) (tt, (tt, tt))
