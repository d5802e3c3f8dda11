-- ===== src/Release/Hooks/Tests.antt =====
-- A shell script that is run.
use bscp_go.Prelude.{◌≡◌, true, false, some, [], ◌∷◌, is_none, Text, codes}
use bscp_go.Release.Hooks.{shell, HookType, pre_hook, post_hook, Hook, System, Done, execute_script}
use bscp_go.Release.Hooks.Ran.{all_done, OfKind, execute_script-runs}

abbrev name_of : HookType → Text
name_of pre_hook = codes "pre"
name_of post_hook = codes "post"

abbrev sys : System
sys = record {
  windows = false;
  mkdir_ok = true;
  script_written = true;
  env_written = true;
  command_ok = true;
  type_name = name_of;
}

abbrev hook : Hook
hook = record { script = shell; content = codes "echo" }

abbrev nothing : Done
nothing = record { files = []; commands = [] }

execute_script-runs_example :
    let (err, d') = execute_script sys pre_hook (some hook) (codes "A=1" ∷ []) nothing in
    (is_none err ≡ true)
    × OfKind pre_hook err
    × (d' ≡ all_done sys hook pre_hook (codes "A=1" ∷ []) nothing)
execute_script-runs_example =
    execute_script-runs sys pre_hook shell (codes "echo") (codes "A=1" ∷ []) nothing
