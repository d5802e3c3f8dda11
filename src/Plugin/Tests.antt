-- ===== src/Plugin/Tests.antt =====
-- A second start while the process 41 of the pid file is alive.
use bscp_go.Prelude.{ℕ, ◌≡◌, refl, true, some, arith, ◌==◌, if◌then◌else◌, codes}
use bscp_go.Plugin.{pid_content, Process, alive, not_running, still_alive, itoa, ensure_pid}
use bscp_go.Plugin.Started.{ensure_pid-itoa}

abbrev processes : ℕ → Process
processes n = if n == 41 then alive else not_running

printed : itoa 152 ≡ codes "152"
unfolding itoa
printed = refl

ensure_pid-itoa_example :
    ensure_pid processes true true (itoa 152) (pid_content (itoa 41))
    ≡ (some still_alive, pid_content (itoa 41))
ensure_pid-itoa_example = ensure_pid-itoa processes 41 152 (omega arith)
