-- ===== src/Config/Accepted.antt =====
-- Which configurations `Validate` accepts, and what it fills in.
use bscp_go.Prelude.{
  ◌≡◌, refl, Bool, true, false, not, ◌&&◌, ◌||◌, List, [], ◌∷◌, arith, ◌==◌, is_none, bytes_eq,
  bytes_eq_sound, bytes_eq_refl, Text, is_empty,
}
use bscp_go.Labels.{Map, lookup, put}
use bscp_go.Labels.Priority.{lookup-put}
use bscp_go.Config.{
  AppConfig, ClientConfig, fill_dir_and_port, fill_caches, no_entries, validate_base, validate_app,
  check_apps, validate,
}

-- Whether the config is accepted.
abbrev pub accepts : ClientConfig → Bool
accepts c = is_none (validate c).0

abbrev pub all_named : List AppConfig → Bool
all_named [] = true
all_named (a ∷ apps) = not (is_empty a.name) && all_named apps

abbrev pub has_name : Text → List AppConfig → Bool
has_name k [] = false
has_name k (a ∷ apps) = bytes_eq k a.name || has_name k apps

abbrev pub names_differ : List AppConfig → Bool
names_differ [] = true
names_differ (a ∷ apps) = not (has_name a.name apps) && names_differ apps

-- An agent's id, or all three ids of a container.
abbrev pub p2p_ids_set : ClientConfig → Bool
p2p_ids_set c =
    not (is_empty c.bk_agent_id)
    || (not (is_empty c.cluster_id) && not (is_empty c.pod_id) && not (is_empty c.container_name))

abbrev pub runnable : ClientConfig → Bool
runnable c =
    not (no_entries c.feed_addrs)
    && not (c.biz == 0)
    && not (is_empty c.token)
    && (not c.enable_p2p_download || p2p_ids_set c)
    && not (no_entries c.apps)
    && all_named c.apps
    && names_differ c.apps

-- No app of the list has a name that was seen.
abbrev none_seen : List AppConfig → Map Bool → Bool
none_seen [] m = true
none_seen (a ∷ apps) m = is_none (lookup a.name m) && none_seen apps m

none_seen-put :
    (k : Text) (apps : List AppConfig) (m : Map Bool)
    → none_seen apps (put k true m) ≡ (not (has_name k apps) && none_seen apps m)
none_seen-put k [] m = refl
none_seen-put k (a ∷ apps) m = ground (
  arith,
  lookup-put a.name k true m,
  none_seen-put k apps m,
  bytes_eq_sound k a.name,
  bytes_eq_sound a.name k,
  bytes_eq_refl k,
)

check_apps-none :
    (apps : List AppConfig) (m : Map Bool)
    → is_none (check_apps apps m) ≡ (all_named apps && names_differ apps && none_seen apps m)
unfolding check_apps validate_app
check_apps-none [] m = refl
check_apps-none (a ∷ apps) m =
    ground (arith, check_apps-none apps (put a.name true m), none_seen-put a.name apps m)

none_seen_start : (apps : List AppConfig) → none_seen apps [] ≡ true
unfolding lookup
none_seen_start [] = refl
none_seen_start (a ∷ apps) = none_seen_start apps

-- A config is accepted exactly when it has an address, a biz and a token, the ids that peer to peer
-- downloads need if these are enabled, and at least one app, with every app named and no name twice.
pub validate-runnable : (c : ClientConfig) → accepts c ≡ runnable c
unfolding validate validate_base fill_dir_and_port fill_caches
validate-runnable c = ground (arith, check_apps-none c.apps [], none_seen_start c.apps)
