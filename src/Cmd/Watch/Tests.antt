-- ===== src/Cmd/Watch/Tests.antt =====
-- A labels file that is written, written again as it was, and then cannot be read.
use bscp_go.Prelude.{◌≡◌, refl, true, false, some, List, [], ◌∷◌, Text, codes, split}
use bscp_go.Labels.{Map, lookup}
use bscp_go.Labels.Equal.{Agree}
use bscp_go.Config.Tests.{conf}
use bscp_go.Config.Update.{update}
use bscp_go.Config.Update.Tests.{outside, outside-file}
use bscp_go.Config.Update.Precedence.{labels_after}
use bscp_go.Config.Update.Success.{update-succeeds}
use bscp_go.Cmd.Watch.{read_failed, content_read, FsEvent, watch_labels_file, reload_labels}
use bscp_go.Cmd.Watch.Reloaded.{last_sent, watch_labels_file-Agree, reload_labels-stale}

abbrev zone_b : Map Text
zone_b = (codes "zone", codes "b") ∷ []

abbrev zone_c : Map Text
zone_c = (codes "zone", codes "c") ∷ []

abbrev events : List FsEvent
events =
    record { is_write = true; of_file = true; reads = content_read zone_c }
    ∷ record { is_write = true; of_file = true; reads = content_read zone_c }
    ∷ record { is_write = false; of_file = true; reads = content_read zone_b }
    ∷ record { is_write = true; of_file = true; reads = read_failed }
    ∷ []

watch_labels_file-Agree_example :
    Agree (last_sent (watch_labels_file events zone_b).1 zone_b) zone_c
watch_labels_file-Agree_example =
    watch_labels_file-Agree events zone_b zone_b ((tt, tt), ((tt, tt), ((tt, tt), (tt, tt))))
      (λ j. refl)

reload_labels-stale_example :
    lookup (codes "zone") (reload_labels false [] (labels_after (update outside conf)) [])
    ≡ some (codes "b")
unfolding lookup split
reload_labels-stale_example =
    reload_labels-stale outside conf [] [] (codes "zone") (codes "b") (update-succeeds outside conf)
      (tt, tt) tt (rw outside-file (tt, tt)) (rw outside-file refl) tt refl
