-- ===== src/Retry.antt =====
-- The retry policy that internal/downloader and client take from the services' tools.
use bscp_go.Prelude.{ℕ, ◌+◌, ◌≡◌}

-- `tools.RetryPolicy`, which the services' package declares.
pub record RetryPolicy : Type 1 where
  pub Policy : Type 0
  pub new_policy : Policy
  pub retry_count : Policy → ℕ
  pub sleep : Policy → Policy

-- Every `Sleep` adds one to the count, which begins at 0.
pub record Counts (policy : RetryPolicy) : Type 0 where
  pub new_count : policy.retry_count policy.new_policy ≡ 0
  pub sleep_count :
      (p : policy.Policy) → policy.retry_count (policy.sleep p) ≡ policy.retry_count p + 1
