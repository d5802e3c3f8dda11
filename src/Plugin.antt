-- ===== src/Plugin.antt =====
-- build/nodemanPlugin/main.go: the plugin's validation, its pid file, and how `Watch` ends.
pub mod Started
mod Tests
use bscp_go.Prelude.{
  ℕ, zero, suc, ◌+◌, ◌-◌, ◌*◌, ◌/◌, ◌%◌, ◌^◌, Bool, not, ◌||◌, Option, none, some, [], ◌∷◌, ◌++◌,
  ltb, leb, if◌then◌else◌, Text, is_empty, trim_space,
}
use bscp_go.Config.{ClientConfig, ConfigErr, validate}

-- `pluginConfig`, as far as it is read.
pub record PluginConfig : Type 0 where
  pub client : ClientConfig
  pub pid_path : Text
  pub log_path : Text

pub data PluginErr : Type 0 where
  client_err : ConfigErr → PluginErr
  pid_path_unset log_path_unset : PluginErr

-- `pluginConfig.Validate` behind the client's validation: its error.
abbrev pub plugin_checks : Option ConfigErr → PluginConfig → Option PluginErr
plugin_checks (some e) c = some (client_err e)
plugin_checks none c =
    if is_empty c.pid_path
    then some pid_path_unset
    else if is_empty c.log_path
    then some log_path_unset
    else none

-- `pluginConfig.Validate`
pub validate_plugin : PluginConfig → Option PluginErr × PluginConfig
validate_plugin c =
    let checked = validate c.client in (plugin_checks checked.0 c, record c { client = checked.1 })

-- The pid file: missing, unreadable, or its content.
pub data PidFile : Type 0 where
  missing unreadable : PidFile
  pid_content : Text → PidFile

-- What `process.NewProcess` says of a pid.
pub data Process : Type 0 where
  alive not_running lookup_failed : Process

pub data PidErr : Type 0 where
  dir_failed unreadable_pid not_a_number process_failed still_alive write_failed : PidErr

-- The digits of `strconv.Atoi`, with the value that was read; `none` for another character or a value
-- above the largest int.
pub digits : Text → ℕ → Option ℕ
digits [] value = some value
digits (c ∷ s) value =
    let rest = digits s (10 * value + (c - b'0')) in
    if ltb c b'0' || ltb b'9' c || leb (2 ^ 63) (10 * value + (c - b'0')) then none else rest

-- `strconv.Atoi` of a text without a sign; no pid is written with one.
pub atoi : Text → Option ℕ
unfolding digits
atoi [] = none
atoi (c ∷ s) = digits (c ∷ s) 0

-- The decimal digits of a number, the first one not 0 but for the number 0; as many as the fuel at most.
pub print_digits : ℕ → ℕ → Text
print_digits zero n = []
print_digits (suc fuel) n =
    let front = print_digits fuel (n / 10) in
    if ltb n 10 then (b'0' + n) ∷ [] else front ++ (b'0' + n % 10) ∷ []

-- `strconv.Itoa` of a number that is not negative; `n + 1` is more fuel than `n` has digits.
pub itoa : ℕ → Text
unfolding print_digits
itoa n = print_digits (suc n) n

-- What a process with the pid means for the start.
abbrev pub verdict : Process → Option PidErr
verdict alive = some still_alive
verdict not_running = none
verdict lookup_failed = some process_failed

-- `checkProcess`
pub check_process : (ℕ → Process) → PidFile → Option PidErr
check_process process missing = none
check_process process unreadable = some unreadable_pid
check_process process (pid_content content) = elim (atoi (trim_space content)) [
  | none ↦ some not_a_number
  | some pid ↦ verdict (process (pid % 2 ^ 32))
]

-- `ensurePid`: the error, and the pid file behind it. `pid_text` is the own pid as it is printed.
pub ensure_pid : (ℕ → Process) → Bool → Bool → Text → PidFile → Option PidErr × PidFile
ensure_pid process dir_ok write_ok pid_text file =
    if not dir_ok then (some dir_failed, file) else elim (check_process process file) [
      | some e ↦ (some e, file)
      | none ↦ if write_ok then (none, pid_content pid_text) else (some write_failed, file)
    ]

-- How the parts of `Watch` behind the pid go.
pub record Parts : Type 0 where
  pub client_made : Bool
  pub watchers_added : Bool
  pub watch_started : Bool
  pub log_dir_made : Bool
  pub listens : Bool

pub data WatchErr : Type 0 where
  pid_err : PidErr → WatchErr
  client_failed add_watch_failed log_dir_failed listen_failed : WatchErr

-- `serveHttp`, which ends when `http.Serve` fails; `err` is nil there.
pub serve_http : Parts → Option WatchErr
serve_http p =
    if not p.log_dir_made
    then some log_dir_failed
    else if not p.listens
    then some listen_failed
    else none

-- `Watch`: the error that it returns. When the start of the watch fails, it returns `err`, which is nil.
pub watch : Option PidErr → Parts → Option WatchErr
unfolding serve_http
watch (some e) p = some (pid_err e)
watch none p =
    if not p.client_made
    then some client_failed
    else if not p.watchers_added
    then some add_watch_failed
    else if not p.watch_started
    then none
    else serve_http p
