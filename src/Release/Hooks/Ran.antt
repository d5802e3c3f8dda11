-- ===== src/Release/Hooks/Ran.antt =====
-- When a hook succeeds, and what has been run.
use bscp_go.Prelude.{
  ◌≡◌, refl, inl, inr, Bool, true, false, ◌&&◌, Option, none, some, List, [], ◌∷◌, ◌++◌, arith,
  if◌then◌else◌, Option-cases, is_none, Text, codes,
}
use bscp_go.Release.Hooks.{
  ScriptType, shell, python, bat, powershell, other_type, HookType, Hook, System, Secondary,
  Command, Done, extension, script_content, env_file, execute_hook, Primary, failure_of,
  execute_script,
}

abbrev pub is_supported : ScriptType → Bool
is_supported other_type = false
is_supported _ = true

-- Everything up to the command goes well.
abbrev pub reaches_command : System → Hook → Bool
reaches_command sys h =
    sys.mkdir_ok && is_supported h.script && sys.script_written && sys.env_written

-- The script as it is run: with its command, arguments, and ending.
abbrev pub command_line : ScriptType → Text → Command
command_line shell name = record { command = codes "bash"; args = []; script = name ++ codes ".sh" }
command_line python name = record {
  command = codes "python3";
  args = [];
  script = name ++ codes ".py";
}
command_line bat name = record {
  command = codes "cmd";
  args = codes "/C" ∷ [];
  script = name ++ codes ".bat";
}
command_line powershell name = record {
  command = codes "powershell";
  args = codes "-ExecutionPolicy" ∷ codes "Bypass" ∷ codes "-File" ∷ [];
  script = name ++ codes ".ps1";
}
command_line other_type name = record { command = []; args = []; script = [] }

-- What is done when the command is reached: both files are written, and the script is run once.
abbrev pub all_done : System → Hook → HookType → List Text → Done → Done
all_done sys h t envs d =
    let c = command_line h.script (sys.type_name t) in
    record {
      files =
          (d.files ++ record { name = c.script; content = script_content h } ∷ [])
          ++ env_file sys.windows envs ∷ [];
      commands = d.commands ++ c ∷ [];
    }

-- An error has the reason of the kind of hooks.
abbrev pub OfKind : HookType → Option (Primary × Secondary) → Type 0
OfKind t none = Unit {0}
OfKind t (some (p, s)) = p ≡ failure_of t

of_kind :
    (sys : System) (t : HookType) (h : Hook) (envs : List Text) (d : Done)
    → OfKind t (execute_script sys t (some h) envs d).0
unfolding execute_script
of_kind sys t h envs d = elim (Option-cases (execute_hook sys h t envs d).0) [
  | inl e ↦ rw (e, execute_script) tt
  | inr (x, e) ↦ rw (e, execute_script) refl
]

-- A hook succeeds exactly when its type is supported and every call of the system goes well; a failure
-- has the reason of its kind of hooks. When all goes well up to the command, the script and the
-- environment are written and the script is run once with the command of its type; and else no command
-- is run.
pub execute_script-runs :
    (sys : System) (t : HookType) (s : ScriptType) (content : Text) (envs : List Text) (d : Done)
    → let h : Hook = record { script = s; content = content } in
      let (err, d') = execute_script sys t (some h) envs d in
      (is_none err ≡ (reaches_command sys h && sys.command_ok))
      × OfKind t err
      × (d' ≡ (
          if reaches_command sys h
          then all_done sys h t envs d
          else record d' { commands = d.commands }))
unfolding execute_script execute_hook extension script_content
execute_script-runs sys t shell content envs d = (
  ground arith,
  of_kind sys t (record { script = shell; content = content }) envs d,
  ground arith,
)
execute_script-runs sys t python content envs d = (
  ground arith,
  of_kind sys t (record { script = python; content = content }) envs d,
  ground arith,
)
execute_script-runs sys t bat content envs d =
    (ground arith, of_kind sys t (record { script = bat; content = content }) envs d, ground arith)
execute_script-runs sys t powershell content envs d = (
  ground arith,
  of_kind sys t (record { script = powershell; content = content }) envs d,
  ground arith,
)
execute_script-runs sys t other_type content envs d = (
  ground arith,
  of_kind sys t (record { script = other_type; content = content }) envs d,
  ground arith,
)
