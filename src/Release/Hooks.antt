-- ===== src/Release/Hooks.antt =====
-- internal/util/hook.go: `ExecuteHook` and `saveContentToFile`; client/types.go: the strategies that
-- run the hooks of a release.
pub mod Ran
mod Tests
use bscp_go.Prelude.{
  ◌⊎◌, inl, inr, Bool, true, false, not, Option, none, some, List, [], ◌∷◌, ◌++◌, if◌then◌else◌,
  Text, codes,
}
use bscp_go.Release.Breaks.{replace_lf}

pub data ScriptType : Type 0 where
  shell python bat powershell other_type : ScriptType

pub data HookType : Type 0 where
  pre_hook post_hook : HookType

-- `HookSpec`
pub record Hook : Type 0 where
  pub script : ScriptType
  pub content : Text

-- How the calls of the operating system go: the folder, the two files, and the command; and what the
-- service's package calls a type of hooks.
pub record System : Type 0 where
  pub windows : Bool
  pub mkdir_ok : Bool
  pub script_written : Bool
  pub env_written : Bool
  pub command_ok : Bool
  pub type_name : HookType → Text

-- The reasons of `sfs.SecondaryError`.
pub data Secondary : Type 0 where
  new_folder_failed script_type_not_supported write_file_failed write_env_file_failed : Secondary
  script_execution_failed : Secondary

-- A file that was written: its name below the folder of the hooks, and its content.
pub record Written : Type 0 where
  pub name : Text
  pub content : Text

-- A command that was run, its arguments before the script, and the script's name.
pub record Command : Type 0 where
  pub command : Text
  pub args : List Text
  pub script : Text

-- What the hooks have done: the files written and the commands run, in order.
pub record Done : Type 0 where
  pub files : List Written
  pub commands : List Command

-- The ending of the script's file, `none` for a type that is not supported.
unfoldable pub extension : ScriptType → Option Text
extension shell = some (codes ".sh")
extension python = some (codes ".py")
extension bat = some (codes ".bat")
extension powershell = some (codes ".ps1")
extension other_type = none

-- The content that is written, and that the hook has from then on.
pub script_content : Hook → Text
script_content h = elim h.script [
  | bat ↦ replace_lf (13 ∷ 10 ∷ []) h.content
  | powershell ↦ replace_lf (13 ∷ 10 ∷ []) h.content
  | _ ↦ h.content
]

-- `strings.Join`
pub join_with : Text → List Text → Text
join_with sep [] = []
join_with sep (t ∷ []) = t
join_with sep (t ∷ u ∷ ts) = t ++ (sep ++ join_with sep (u ∷ ts))

-- The file of the environment.
pub env_file : Bool → List Text → Written
unfolding join_with
env_file true envs = record {
  name = codes "env.bat";
  content = codes "set " ++ (join_with (13 ∷ 10 ∷ codes "set ") envs ++ (13 ∷ 10 ∷ []));
}
env_file false envs = record {
  name = codes "env";
  content = codes "export " ++ (join_with (10 ∷ codes "export ") envs ++ (10 ∷ []));
}

abbrev wrote : Written → Done → Done
wrote f d = record d { files = d.files ++ f ∷ [] }

-- `saveContentToFile`: the script's name, or an error.
unfoldable pub save_content_to_file :
    System → Hook → HookType → List Text → Done → (Text ⊎ Secondary) × Done
unfolding extension script_content env_file
save_content_to_file sys h t envs d =
    if not sys.mkdir_ok then (inr new_folder_failed, d) else elim (extension h.script) [
      | none ↦ (inr script_type_not_supported, d)
      | some ext ↦
          let script = sys.type_name t ++ ext in
          let d' = wrote (record { name = script; content = script_content h }) d in
          if not sys.script_written
          then (inr write_file_failed, d)
          else if not sys.env_written
          then (inr write_env_file_failed, d')
          else (inl script, wrote (env_file sys.windows envs) d')
    ]

-- The command of a script and its arguments.
unfoldable pub command_of : ScriptType → Option (Text × List Text)
command_of shell = some (codes "bash", [])
command_of python = some (codes "python3", [])
command_of bat = some (codes "cmd", codes "/C" ∷ [])
command_of powershell =
    some (codes "powershell", codes "-ExecutionPolicy" ∷ codes "Bypass" ∷ codes "-File" ∷ [])
command_of other_type = none

-- `ExecuteHook`, with the variables for the script.
unfoldable pub execute_hook : System → Hook → HookType → List Text → Done → Option Secondary × Done
unfolding save_content_to_file command_of
execute_hook sys h t envs d =
    let (saved, d') = save_content_to_file sys h t envs d in
    elim saved [
      | inr e ↦ (some e, d')
      | inl script ↦ elim (command_of h.script) [
        | none ↦ (some script_type_not_supported, d')
        | some (command, args) ↦
            let run : Command = record { command = command; args = args; script = script } in
            let d'' : Done = record d' { commands = d'.commands ++ run ∷ [] } in
            if sys.command_ok then (none, d'') else (some script_execution_failed, d'')
      ]
    ]

-- The reasons of `sfs.PrimaryError`.
pub data Primary : Type 0 where
  pre_hook_failed post_hook_failed : Primary

abbrev pub failure_of : HookType → Primary
failure_of pre_hook = pre_hook_failed
failure_of post_hook = post_hook_failed

-- `executeScript` of both strategies: nothing for a release without the hook. Every error of
-- `ExecuteHook` is a secondary one.
unfoldable pub execute_script :
    System → HookType → Option Hook → List Text → Done → Option (Primary × Secondary) × Done
execute_script sys t none envs d = (none, d)
execute_script sys t (some h) envs d =
    let (err, d') = execute_hook sys h t envs d in
    elim err [ none ↦ (none, d') | some e ↦ (some (failure_of t, e), d') ]
