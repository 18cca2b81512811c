-- ===== src/Retry/Policy.antt =====
-- `RetryPolicy`, `_RetryState` and the choice of the next wait. A duration is a whole number of
-- nanoseconds (the source uses float seconds), and the backoff factor is a whole number.
pub mod Budget
use codex_shim.Prelude.{
  ℕ, suc, ◌+◌, ◌-◌, ◌*◌, ◌^◌, min, max, Bool, true, false, ◌&&◌, ◌||◌, Option, none, some, ltb, leb,
  nat_eq, if◌then◌else◌,
}

-- `THROTTLE_NONE`, `THROTTLE_RATE_LIMIT`, `THROTTLE_QUOTA`, `THROTTLE_TRANSPORT`
pub data Kind : Type 0 where
  no_throttle rate_limit quota transport : Kind

abbrev pub second : ℕ
second = 1000000000

abbrev pub min_extension_delay : ℕ
min_extension_delay = 250000000

abbrev pub max_extension_attempts : ℕ
max_extension_attempts = 8

abbrev pub default_429_retry_after : ℕ
default_429_retry_after = 5 * second

-- The fields that decide on waits; `jitter` is what `_apply_jitter` makes of a delay, which is
-- random in the source.
pub record RetryPolicy : Type 0 where
  pub attempts : ℕ
  pub backoff_base : ℕ
  pub backoff_factor : ℕ
  pub wait_budget : ℕ
  pub rate_limit_min : ℕ
  pub rate_limit_max : ℕ
  pub jitter : ℕ → ℕ

abbrev pub or_none : Option ℕ → ℕ
or_none none = 0
or_none (some n) = n

unfoldable pub delay_for : RetryPolicy → ℕ → ℕ
delay_for policy attempt = policy.backoff_base * policy.backoff_factor ^ attempt

-- attempts <= 1 or wait_budget <= 0 or retry_after is None or retry_after <= 0
abbrev pub never_extends : RetryPolicy → Option ℕ → Bool
never_extends policy retry_after =
    leb policy.attempts 1 || nat_eq policy.wait_budget 0 || nat_eq (or_none retry_after) 0

unfoldable pub should_continue : RetryPolicy → ℕ → ℕ → Option ℕ → Bool
should_continue policy attempt waited retry_after =
    if ltb (attempt + 1) policy.attempts
    then true
    else if never_extends policy retry_after
    then false
    else ltb waited policy.wait_budget

pub record RetryState : Type 0 where
  pub attempt : ℕ
  pub extension_waited : ℕ
  pub extension_attempts : ℕ

abbrev pub fresh_state : RetryState
fresh_state = record { attempt = 0; extension_waited = 0; extension_attempts = 0 }

unfoldable pub next_wait : RetryState → RetryPolicy → Bool → Option ℕ → Option ℕ
unfolding delay_for
next_wait s policy false retry_after = none
next_wait s policy true retry_after =
    let remaining = policy.wait_budget - s.extension_waited in
    let wait = max (max (delay_for policy s.attempt) (or_none retry_after)) min_extension_delay in
    if ltb (s.attempt + 1) policy.attempts
    then some (max (delay_for policy s.attempt) (or_none retry_after))
    else if never_extends policy retry_after
    then none
    else if leb max_extension_attempts s.extension_attempts
    then none
    else if nat_eq remaining 0
    then none
    else some (min wait remaining)

-- _RetryState.record
unfoldable pub record_wait : RetryState → ℕ → Bool → RetryState
record_wait s wait false = record s { attempt = s.attempt + 1 }
record_wait s wait true = record s {
  attempt = s.attempt + 1;
  extension_waited = s.extension_waited + wait;
  extension_attempts = s.extension_attempts + 1;
}

unfoldable pub in_extension : RetryState → RetryPolicy → Bool
in_extension s policy = leb policy.attempts (s.attempt + 1)

-- state.record(wait, extension=state.in_extension(policy))
unfoldable pub after_wait : RetryState → RetryPolicy → ℕ → RetryState
unfolding record_wait in_extension
after_wait s policy wait = record_wait s wait (in_extension s policy)

-- inferred_retry_after, from the hint of `parse_retry_after`
unfoldable pub inferred_retry_after : Option ℕ → Option ℕ → Option ℕ
inferred_retry_after status (some hinted) = some hinted
inferred_retry_after none none = none
inferred_retry_after (some status) none =
    if nat_eq status 429 then some default_429_retry_after else none

-- _kind_for_policy, from `classify_throttle` and `policy.is_retryable` on the same failure
unfoldable pub kind_for_policy : Kind → Bool → Kind
kind_for_policy rate_limit retryable = rate_limit
kind_for_policy quota retryable = quota
kind_for_policy kind false = no_throttle
kind_for_policy no_throttle true = transport
kind_for_policy transport true = transport

-- _endless_kind
unfoldable pub endless_kind : Kind → RetryPolicy → Bool
endless_kind rate_limit policy = ltb 1 policy.attempts
endless_kind quota policy = ltb 1 policy.attempts
endless_kind no_throttle policy = false
endless_kind transport policy = false

abbrev pub is_transport : Kind → Bool
is_transport transport = true
is_transport _ = false
