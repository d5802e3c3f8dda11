-- ===== src/Config/Update/Tests.antt =====
-- The theorems on `Update` with two environment variables and a file of labels.
use bscp_go.Prelude.{◌≡◌, refl, true, none, some, [], ◌∷◌, codes, split}
use bscp_go.Labels.{lookup}
use bscp_go.Config.Tests.{conf}
use bscp_go.Config.Update.{present, Outside, key_value, read_labels_file, update}
use bscp_go.Config.Update.Precedence.{succeeds, labels_after, file_labels, update-labels}
use bscp_go.Config.Update.Success.{update-succeeds}

abbrev pub outside : Outside
outside = record {
  stat = present;
  read_in_config = true;
  unmarshal_file = some ((codes "zone", codes "b") ∷ []);
  unmarshal = λ t. none;
  environ = codes "labels_env=prod" ∷ codes "namespace=bcs" ∷ [];
  client_ip = codes "10.0.0.9";
}

update-succeeds_example : succeeds (update outside conf) ≡ true
unfolding split
update-succeeds_example = update-succeeds outside conf

pub outside-file : file_labels outside conf.labels_file ≡ (codes "zone", codes "b") ∷ []
unfolding read_labels_file
outside-file = refl

-- The variable comes before the configuration.
update-labels_example :
    lookup (codes "env") (labels_after (update outside conf)) ≡ some (codes "prod")
unfolding lookup split read_labels_file key_value
update-labels_example =
    update-labels outside conf (update-succeeds outside conf) (tt, tt) tt (tt, tt) (codes "env")
