-- ===== src/Release/Callback/Tests.antt =====
-- A callback with a hook before the update and none behind it, on the two files of Release/Folder.
use bscp_go.Prelude.{
  ◌≡◌, true, false, not, ◌&&◌, none, some, [], ◌∷◌, if◌then◌else◌, is_none, codes,
}
use bscp_go.Release.Breaks.{crlf}
use bscp_go.Release.Hooks.{shell, System}
use bscp_go.Release.Log.{latest}
use bscp_go.Release.Steps.{event_success, processing, pull, Release}
use bscp_go.Release.Folder.Tests.{length_of, two_files, old_folder}
use bscp_go.Release.Callback.{Target, Plan, watch_callback}
use bscp_go.Release.Callback.Released.{skips, callback-metadata}

abbrev sys : System
sys = record {
  windows = false;
  mkdir_ok = true;
  script_written = true;
  env_written = true;
  command_ok = true;
  type_name = λ t. codes "hook";
}

abbrev release_9 : Release
release_9 = record {
  release_id = 9;
  match_ = [];
  mode = pull;
  current_release_id = 0;
  change_status = processing;
  detail = [];
  cursor_id = [];
  app_cursor_id = [];
}

abbrev plan : Plan
plan = record {
  release = release_9;
  last_meta = latest (record { release_id = 8; config_matches = [] });
  last_event = latest (record { release_id = 8; status = event_success });
  pre = some (record { script = shell; content = codes "true" });
  post = none;
  files = two_files crlf;
  sys = sys;
  envs = codes "A=1" ∷ [];
  walk_fails = none;
  append_ok = true;
}

abbrev target : Target
target = record { folders = old_folder; done = record { files = []; commands = [] }; metadata = [] }

-- The record cannot be appended.
callback-metadata_example :
    (watch_callback length_of (record plan { append_ok = false }) target).1.metadata ≡ (
      if is_none (watch_callback length_of (record plan { append_ok = false }) target).0
        && not (skips (record plan { append_ok = false }))
      then record { release_id = 9; config_matches = [] } ∷ []
      else [])
callback-metadata_example = callback-metadata length_of (record plan { append_ok = false }) target
