-- ===== src/Retry/Policy/Budget.antt =====
-- The waits that extend a request past its attempts stay within the budget.
use codex_shim.Prelude.{
  ℕ, ◌+◌, ◌-◌, ◌≤◌, ◌<◌, ◌≡◌, ◌⊎◌, Bool, true, false, Option, none, some, arith,
}
use codex_shim.Retry.Policy.{
  RetryPolicy, RetryState, next_wait, should_continue, after_wait, max_extension_attempts,
}

-- The extension's wait is within the budget, its number of waits within 8, and the number of
-- waits so far is at most the attempts and those.
pub record IsWithinBudget (policy : RetryPolicy) (s : RetryState) : Type 0 where
  pub waited : s.extension_waited ≤ policy.wait_budget
  pub extensions : s.extension_attempts ≤ max_extension_attempts
  pub tries : s.attempt ≤ policy.attempts - 1 + s.extension_attempts

-- From a state within the budget, recording a wait that `next_wait` grants leads to a state
-- within the budget.
pub after_wait-IsWithinBudget :
    (policy : RetryPolicy) (s : RetryState) (retryable : Bool) (retry_after : Option ℕ) (wait : ℕ)
    → IsWithinBudget policy s
    → next_wait s policy retryable retry_after ≡ some wait
    → IsWithinBudget policy (after_wait s policy wait)
unfolding next_wait after_wait
after_wait-IsWithinBudget policy s true none wait w e = ground arith
after_wait-IsWithinBudget policy s true (some r) wait w e = ground arith
after_wait-IsWithinBudget policy s false retry_after wait w e = cc

-- A wait is granted only for a failure that may be retried and where `should_continue` says so; past
-- the last attempt but one it is no longer than what is left of the budget.
pub next_wait-should_continue :
    (policy : RetryPolicy) (s : RetryState) (retryable : Bool) (retry_after : Option ℕ) (wait : ℕ)
    → next_wait s policy retryable retry_after ≡ some wait
    → (retryable ≡ true)
      × (should_continue policy s.attempt s.extension_waited retry_after ≡ true)
      × ((s.attempt + 1 < policy.attempts) ⊎ (s.extension_waited + wait ≤ policy.wait_budget))
unfolding next_wait should_continue
next_wait-should_continue policy s true none wait e = ground arith
next_wait-should_continue policy s true (some r) wait e = ground arith
next_wait-should_continue policy s false retry_after wait e = cc
