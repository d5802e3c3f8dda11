-- ===== src/Watch/Subscribers.antt =====
-- client/watch.go: what a subscriber keeps, `CheckConfigItemsChanged`, `ResetConfigItems`,
-- `ResetLabels` and `handleReleaseChangeEvent`.
pub mod Releases
pub mod Changes
use bscp_go.Prelude.{
  ℕ, ◌+◌, ◌%◌, ◌^◌, Bool, true, false, not, Option, none, some, List, [], ◌∷◌, ◌==◌, if◌then◌else◌,
  length, Text,
}
use bscp_go.Labels.{Map, lookup, put, merge_labels}
use bscp_go.Options.{AppOptions}

-- `sfs.Status`; `unset` is the zero value.
pub data ReleaseStatus : Type 0 where
  unset processing success failed : ReleaseStatus

-- A cursor: none yet, made by `GenerateCursorID`, or the server's number, as a text in the code.
pub data CursorId : Type 0 where
  no_cursor generated : CursorId
  numbered : ℕ → CursorId

-- A config item: its name, commit and size.
pub record ConfigItem : Type 0 where
  pub name : Text
  pub commit_id : ℕ
  pub byte_size : ℕ

-- A subscriber, without its callback and its queue, which Watch/Queue has.
pub record Subscriber : Type 0 where
  pub opts : AppOptions
  pub app : Text
  pub current_release_id : ℕ
  pub target_release_id : ℕ
  pub labels : Map Text
  pub uid : Text
  pub match_ : List Text
  pub current_config_items : Map ℕ
  pub cursor_id : CursorId
  pub release_change_status : ReleaseStatus
  pub download_file_num : ℕ
  pub download_file_size : ℕ

-- An event: its cursor, and the release's id and config items.
pub record Event : Type 0 where
  pub cursor_id : CursorId
  pub release_id : ℕ
  pub ci_metas : List ConfigItem

-- The loop of `CheckConfigItemsChanged`, with the number of items that were found unchanged.
pub check_items : Map ℕ → List ConfigItem → ℕ → Option ℕ
unfolding lookup
check_items current [] checked = some checked
check_items current (ci ∷ cis) checked =
    let rest = check_items current cis (checked + 1) in
    elim (lookup ci.name current) [
      | none ↦ none
      | some commit_id ↦ if commit_id == ci.commit_id then rest else none
    ]

-- `CheckConfigItemsChanged`
pub check_config_items_changed : List ConfigItem → Subscriber → Bool
unfolding check_items
check_config_items_changed [] s = false
check_config_items_changed (ci ∷ cis) s = elim (check_items s.current_config_items (ci ∷ cis) 0) [
  | none ↦ true
  | some checked ↦ not (checked == length s.current_config_items)
]

-- The loop of `ResetConfigItems`.
pub item_map : List ConfigItem → Map ℕ → Map ℕ
unfolding put
item_map [] m = m
item_map (ci ∷ cis) m = item_map cis (put ci.name ci.commit_id m)

-- `ResetConfigItems`
pub reset_config_items : List ConfigItem → Subscriber → Subscriber
unfolding item_map
reset_config_items cis s = record s { current_config_items = item_map cis [] }

-- `ResetLabels`
unfoldable pub reset_labels : Map Text → Subscriber → Subscriber
reset_labels labels s = record s { labels = merge_labels (labels ∷ s.opts.labels ∷ []) }

-- `sfs.SideAppMeta`, as the code fills it in for the server.
pub record AppMeta : Type 0 where
  pub app : Text
  pub uid : Text
  pub labels : Map Text
  pub match_ : List Text
  pub current_release_id : ℕ
  pub target_release_id : ℕ
  pub total_file_size : ℕ
  pub total_file_num : ℕ

-- The sum of the sizes, as a uint64.
unfoldable pub total_size : List ConfigItem → ℕ → ℕ
total_size [] total = total
total_size (ci ∷ cis) total = total_size cis ((total + ci.byte_size) % 2 ^ 64)

-- What the release for the callback is made of.
pub app_meta_of : Event → Subscriber → AppMeta
unfolding total_size
app_meta_of e s = record {
  app = s.app;
  uid = s.uid;
  labels = s.labels;
  match_ = s.match_;
  current_release_id = s.current_release_id;
  target_release_id = e.release_id;
  total_file_size = total_size e.ci_metas 0;
  total_file_num = length e.ci_metas;
}

-- `handleReleaseChangeEvent` up to the callback: the subscriber, and what the callback is handed.
pub begin_event : Event → Subscriber → Subscriber × AppMeta
unfolding reset_config_items app_meta_of
begin_event e s =
    let begun = reset_config_items e.ci_metas (record s { cursor_id = e.cursor_id }) in
    (record begun { release_change_status = processing }, app_meta_of e begun)

-- `handleReleaseChangeEvent`, with whether the callback returns no error.
pub handle_release_change_event : Event → Bool → Subscriber → Subscriber
unfolding begin_event
handle_release_change_event e callback_ok s =
    let (begun, handed) = begin_event e s in
    if callback_ok
    then record begun { release_change_status = success; current_release_id = e.release_id }
    else record begun { release_change_status = failed }

-- The events that `processEvents` hands on, one after the other.
pub handle_all : List (Event × Bool) → Subscriber → Subscriber
unfolding handle_release_change_event
handle_all [] s = s
handle_all ((e, callback_ok) ∷ es) s = handle_all es (handle_release_change_event e callback_ok s)
