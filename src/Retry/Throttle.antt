-- ===== src/Retry/Throttle.antt =====
-- `RequestThrottle` and `next_throttle_delay`: the backoff clock of one request.
pub mod Bounds
use codex_shim.Prelude.{
  ℕ, zero, suc, ◌+◌, ◌*◌, ◌^◌, min, max, Bool, true, false, Option, none, some, ltb, if◌then◌else◌,
}
use codex_shim.Retry.Policy.{Kind, no_throttle, rate_limit, quota, transport, RetryPolicy, or_none}

abbrev pub max_origin_exponent : ℕ
max_origin_exponent = 16

-- _clamp
unfoldable pub clamp : ℕ → ℕ → ℕ → ℕ
clamp value lo hi = let top = if ltb hi lo then lo else hi in max lo (min top value)

pub record RequestThrottle : Type 0 where
  pub exponent : ℕ
  pub last_delay : ℕ
  pub kind : Kind

abbrev pub fresh_throttle : RequestThrottle
fresh_throttle = record { exponent = 0; last_delay = 0; kind = no_throttle }

-- while value < ceiling and exponent < _MAX_ORIGIN_EXPONENT; the number is the rounds left
unfoldable pub double_until : ℕ → ℕ → ℕ → ℕ → ℕ
double_until zero ceiling value exponent = exponent
double_until (suc rounds) ceiling value exponent =
    let deeper = double_until rounds ceiling (value * 2) (exponent + 1) in
    if ltb value ceiling then deeper else exponent

-- _cap_exponent; 1e-9 seconds are one nanosecond
unfoldable pub cap_exponent : RetryPolicy → ℕ
unfolding double_until
cap_exponent policy =
    let floor = max policy.rate_limit_min 1 in
    double_until max_origin_exponent (max policy.rate_limit_max floor) floor 0

abbrev pub or_default : ℕ → Option ℕ → ℕ
or_default d none = d
or_default d (some n) = n

-- the state after the call, with the delay in `last_delay`
unfoldable pub next_throttle_delay :
    RequestThrottle → Kind → RetryPolicy → Option ℕ → Option ℕ → RequestThrottle
next_throttle_delay state quota policy retry_after resets_in_seconds =
    let raw = or_default policy.rate_limit_max resets_in_seconds in
    record {
      exponent = cap_exponent policy;
      last_delay = clamp raw policy.rate_limit_min policy.rate_limit_max;
      kind = quota;
    }
next_throttle_delay state other policy retry_after resets_in_seconds =
    let exponential = policy.rate_limit_min * 2 ^ state.exponent in
    let raw = max exponential (or_none retry_after) in
    let delay = clamp raw policy.rate_limit_min policy.rate_limit_max in
    record {
      exponent = min (state.exponent + 1) max_origin_exponent;
      last_delay = clamp (policy.jitter delay) policy.rate_limit_min policy.rate_limit_max;
      kind = rate_limit;
    }
