-- ===== src/Usage.antt =====
-- internal/util/process_collect: the usage of memory that is collected and reported.
pub mod Bounds
use bscp_go.Prelude.{ℕ, ◌+◌, ◌/◌, ◌%◌, ◌^◌, ◌||◌, List, [], ◌∷◌, ltb, ◌==◌, if◌then◌else◌}

-- The variables of one kind of samples.
pub record Stats : Type 0 where
  pub usage : ℕ
  pub max : ℕ
  pub min : ℕ
  pub total : ℕ
  pub count : ℕ

abbrev pub no_stats : Stats
no_stats = record { usage = 0; max = 0; min = 0; total = 0; count = 0 }

-- `setMemUsage`; the sum is a uint64.
pub set_mem_usage : ℕ → Stats → Stats
set_mem_usage usage s = record {
  usage = usage;
  max = if ltb s.max usage then usage else s.max;
  min = if ltb usage s.min || s.min == 0 then usage else s.min;
  total = (s.total + usage) % 2 ^ 64;
  count = s.count + 1;
}

-- What `GetMemUsage` returns.
pub record Usage : Type 0 where
  pub usage : ℕ
  pub max : ℕ
  pub min : ℕ
  pub avg : ℕ

-- `GetMemUsage`
pub get_mem_usage : Stats → Usage
get_mem_usage s = record {
  usage = s.usage;
  max = s.max;
  min = s.min;
  avg = if s.count == 0 then 0 else s.total / s.count;
}

-- The samples one after the other.
pub collect : List ℕ → Stats → Stats
unfolding set_mem_usage
collect [] s = s
collect (u ∷ us) s = collect us (set_mem_usage u s)
