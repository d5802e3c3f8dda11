-- ===== src/Watch/Subscribers/Releases.antt =====
-- The release that a subscriber is at.
use bscp_go.Prelude.{
  ℕ, ◌≡◌, refl, ◌∙◌, Bool, true, false, Option, none, some, List, [], ◌∷◌, if◌then◌else◌,
}
use bscp_go.Labels.Priority.{or_else}
use bscp_go.Watch.Subscribers.{
  Subscriber, Event, reset_config_items, handle_release_change_event, handle_all,
}

-- The release of the last event whose callback returned no error.
abbrev pub last_success : List (Event × Bool) → Option ℕ
last_success [] = none
last_success ((e, callback_ok) ∷ es) =
    or_else (last_success es) (if callback_ok then some e.release_id else none)

abbrev pub get_or : ℕ → Option ℕ → ℕ
get_or n none = n
get_or n (some m) = m

moved : (n r : ℕ) (o : Option ℕ) → get_or r o ≡ get_or n (or_else o (some r))
moved n r none = refl
moved n r (some m) = refl

stayed : (n : ℕ) (o : Option ℕ) → get_or n o ≡ get_or n (or_else o none)
stayed n none = refl
stayed n (some m) = refl

-- After any events a subscriber is at the release of the last event whose callback returned no error,
-- and at the release it was at if there is none; a failed callback never moves it.
pub handle_all-last_success :
    (es : List (Event × Bool)) (s : Subscriber)
    → (handle_all es s).current_release_id ≡ get_or s.current_release_id (last_success es)
unfolding handle_all handle_release_change_event reset_config_items
handle_all-last_success [] s = refl
handle_all-last_success ((e, true) ∷ es) s =
    handle_all-last_success es (handle_release_change_event e true s)
    ∙ moved s.current_release_id e.release_id (last_success es)
handle_all-last_success ((e, false) ∷ es) s =
    handle_all-last_success es (handle_release_change_event e false s)
    ∙ stayed s.current_release_id (last_success es)
