-- ===== src/Plugin/Started.antt =====
-- When the plugin starts, and what it leaves in the pid file.
use bscp_go.Config.{validate}
use bscp_go.Prelude.Trimmed.{NoSpace, NoSpace-append, trim_space_lem}
use bscp_go.Prelude.{
  ℕ, zero, suc, ◌+◌, ◌-◌, ◌*◌, ◌/◌, ◌%◌, ◌^◌, ◌<◌, ◌≡◌, refl, ◌∙◌, ◌≢◌, inl, inr, true, false, not,
  ◌&&◌, Option, none, some, [], ◌∷◌, ◌++◌, arith, ltb, Bool-cases, Option-cases, is_none, Text,
  is_empty, trim_space,
}
use bscp_go.Config.Accepted.{runnable, validate-runnable}
use bscp_go.Plugin.{
  PluginConfig, validate_plugin, PidFile, pid_content, Process, alive, not_running, lookup_failed,
  PidErr, process_failed, still_alive, digits, atoi, print_digits, itoa, verdict, check_process,
  ensure_pid, Parts, watch,
}

-- A config of the plugin is accepted exactly when the client's is and both paths are set.
pub validate_plugin-accepts :
    (c : PluginConfig)
    → is_none (validate_plugin c).0
      ≡ (runnable c.client && not (is_empty c.pid_path) && not (is_empty c.log_path))
unfolding validate_plugin
validate_plugin-accepts c = elim (Option-cases (validate c.client).0) [
  | inl e ↦ rw e (ground (arith, validate-runnable c.client))
  | inr (x, e) ↦ rw e (ground (arith, validate-runnable c.client))
]

digits-append :
    (s : Text) (c value v : ℕ)
    → digits s value ≡ some v
    → digits (s ++ c ∷ []) value ≡ digits (c ∷ []) v
unfolding digits
digits-append [] c value v h = ground arith
digits-append (d ∷ s) c value v h = ground (arith, digits-append s c (10 * value + (d - b'0')) v)

digits-print_digits : (fuel n : ℕ) → n < fuel → n < 2 ^ 63 → digits (print_digits fuel n) 0 ≡ some n
unfolding digits print_digits
digits-print_digits zero n h k = absurd (omega arith)
digits-print_digits (suc fuel) n h k = elim (Bool-cases (ltb n 10)) [
  | inl one ↦ rw one (ground arith)
  | inr more ↦ rw more (
      digits-append (print_digits fuel (n / 10)) (b'0' + n % 10) 0 (n / 10)
        (digits-print_digits fuel (n / 10) (ground arith) (ground arith))
      ∙ ground arith)
]

print_digits-NoSpace : (fuel n : ℕ) → NoSpace (print_digits fuel n)
unfolding print_digits
print_digits-NoSpace zero n = tt
print_digits-NoSpace (suc fuel) n = elim (Bool-cases (ltb n 10)) [
  | inl one ↦ rw one (ground arith, tt)
  | inr more ↦ rw more (
      NoSpace-append (print_digits fuel (n / 10)) ((b'0' + n % 10) ∷ [])
        (print_digits-NoSpace fuel (n / 10)) (ground arith, tt))
]

atoi-digits : (s : Text) → s ≢ [] → atoi s ≡ digits s 0
unfolding atoi
atoi-digits [] h = absurd (h refl)
atoi-digits (c ∷ s) h = refl

append-ne-nil : (s : Text) (c : ℕ) → s ++ c ∷ [] ≢ []
append-ne-nil [] c h = cc
append-ne-nil (d ∷ s) c h = cc

print_digits-ne-nil : (fuel n : ℕ) → print_digits (suc fuel) n ≢ []
unfolding print_digits
print_digits-ne-nil fuel n = elim (Bool-cases (ltb n 10)) [
  | inl one ↦ rw one (λ e. cc)
  | inr more ↦ rw more (append-ne-nil (print_digits fuel (n / 10)) (b'0' + n % 10))
]

-- The printed form of a number is read back.
atoi-itoa : (n : ℕ) → n < 2 ^ 63 → atoi (trim_space (itoa n)) ≡ some n
unfolding itoa
atoi-itoa n small = rw (trim_space_lem (print_digits (suc n) n) (print_digits-NoSpace (suc n) n)) (
    atoi-digits (print_digits (suc n) n) (print_digits-ne-nil n n)
    ∙ digits-print_digits (suc n) n (omega arith) small)

check_process-some :
    (process : ℕ → Process) (content : Text) (pid : ℕ)
    → atoi (trim_space content) ≡ some pid
    → check_process process (pid_content content) ≡ verdict (process (pid % 2 ^ 32))
unfolding check_process
check_process-some process content pid e = rw (e, check_process) refl

-- The outcome of a start for each answer about the process.
abbrev pub outcome : Process → PidFile → PidFile → Option PidErr × PidFile
outcome alive old own = (some still_alive, old)
outcome not_running old own = (none, own)
outcome lookup_failed old own = (some process_failed, old)

outcome_lem :
    (p : Process) (old own : PidFile)
    → (elim (verdict p) as (λ _. Option PidErr × PidFile) [
      | some e ↦ (some e, old)
      | none ↦ (none, own)
    ])
      ≡ outcome p old own
outcome_lem alive old own = refl
outcome_lem not_running old own = refl
outcome_lem lookup_failed old own = refl

-- When the folder can be made and the file be written, and the pid that the plugin wrote is below
-- 2^31: while a process with that pid is alive, a second start fails and leaves the pid file as it is;
-- once it does not run, a start succeeds and writes its own pid; a lookup that fails is an error and
-- leaves the file. Both pids are printed by `strconv.Itoa`.
pub ensure_pid-itoa :
    (process : ℕ → Process) (pid own : ℕ)
    → pid < 2 ^ 31
    → ensure_pid process true true (itoa own) (pid_content (itoa pid))
      ≡ outcome (process pid) (pid_content (itoa pid)) (pid_content (itoa own))
unfolding ensure_pid
ensure_pid-itoa process pid own small =
    let same : pid % 2 ^ 32 ≡ pid = omega arith in
    let check : check_process process (pid_content (itoa pid)) ≡ verdict (process pid) =
      rw same at (check_process-some process (itoa pid) pid (atoi-itoa pid (omega arith))) in
    simp check (outcome_lem (process pid) (pid_content (itoa pid)) (pid_content (itoa own)))

-- When the watch cannot be started, `Watch` returns no error, as if all had gone well.
pub watch-start_lost :
    (p : Parts)
    → p.client_made ≡ true
    → p.watchers_added ≡ true
    → p.watch_started ≡ false
    → watch none p ≡ none
unfolding watch
watch-start_lost p a b c = ground arith
