-- ===== src/Retry/Throttle/Bounds.antt =====
-- Bounds of the throttle clock.
use codex_shim.Prelude.{
  ℕ, zero, suc, ◌+◌, ◌*◌, ◌^◌, ◌≤◌, ◌<◌, ◌≡◌, ◌⊎◌, min, max, Option, arith, ltb, Bool-cases, inl,
  inr,
}
use native.Mathlib.Numerals.{towards_suc}
use native.Mathlib.Nat.{pow-suc}
use codex_shim.Retry.Policy.{Kind, no_throttle, rate_limit, quota, transport, RetryPolicy}
use codex_shim.Retry.Throttle.{
  clamp, RequestThrottle, double_until, cap_exponent, or_default, max_origin_exponent,
  next_throttle_delay,
}

clamp_bounds : (value lo hi : ℕ) → (lo ≤ clamp value lo hi) × (clamp value lo hi ≤ max lo hi)
unfolding clamp
clamp_bounds value lo hi = ground arith

double_until-le : (rounds ceiling value e : ℕ) → double_until rounds ceiling value e ≤ e + rounds
unfolding double_until
double_until-le zero ceiling value e = omega arith
double_until-le (suc n) ceiling value e =
    ground (arith, double_until-le n ceiling (value * 2) (e + 1))

cap_exponent-le : (policy : RetryPolicy) → cap_exponent policy ≤ 16
unfolding cap_exponent
cap_exponent-le policy =
    let floor = max policy.rate_limit_min 1 in
    double_until-le max_origin_exponent (max policy.rate_limit_max floor) floor 0

clamped_step :
    (state : RequestThrottle) (policy : RetryPolicy) (raw : ℕ)
    → (policy.rate_limit_min ≤ clamp raw policy.rate_limit_min policy.rate_limit_max)
      × (clamp raw policy.rate_limit_min policy.rate_limit_max
          ≤ max policy.rate_limit_min policy.rate_limit_max)
      × (min (state.exponent + 1) max_origin_exponent ≤ 16)
clamped_step state policy raw =
    ground (arith, clamp_bounds raw policy.rate_limit_min policy.rate_limit_max)

-- Whatever the failure, the server's hints and the random jitter: the delay is at least the
-- policy's minimum and at most its maximum (or the minimum, where that is larger), and the
-- exponent is at most 16.
pub next_throttle_delay-bounds :
    (state : RequestThrottle) (kind : Kind) (policy : RetryPolicy) (retry_after resets : Option ℕ)
    → let next = next_throttle_delay state kind policy retry_after resets in
      (policy.rate_limit_min ≤ next.last_delay)
      × (next.last_delay ≤ max policy.rate_limit_min policy.rate_limit_max)
      × (next.exponent ≤ 16)
unfolding next_throttle_delay
next_throttle_delay-bounds state quota policy retry_after resets = ground (
  arith,
  cap_exponent-le policy,
  clamp_bounds (or_default policy.rate_limit_max resets) policy.rate_limit_min
      policy.rate_limit_max,
)
next_throttle_delay-bounds state no_throttle policy retry_after resets = clamped_step state policy _
next_throttle_delay-bounds state rate_limit policy retry_after resets = clamped_step state policy _
next_throttle_delay-bounds state transport policy retry_after resets = clamped_step state policy _

pow_step : (e base : ℕ) → base * 2 ^ (e + 1) ≡ base * 2 ^ e * 2
pow_step e base = simp (towards_suc, pow-suc) (omega arith)

step_over {ℓ} : {P : Type ℓ} → (x e n : ℕ) → (x ≡ e + 1 + n) ⊎ P → (x ≡ e + suc n) ⊎ P
step_over x e n (inl h) = inl (omega arith)
step_over x e n (inr p) = inr p

double_until-reaches :
    (rounds ceiling base value e : ℕ)
    → value ≡ base * 2 ^ e
    → (double_until rounds ceiling value e ≡ e + rounds)
      ⊎ (ceiling ≤ base * 2 ^ double_until rounds ceiling value e)
unfolding double_until
double_until-reaches zero ceiling base value e h = inl (omega arith)
double_until-reaches (suc n) ceiling base value e h = elim (Bool-cases (ltb value ceiling)) [
  | inl below ↦ rw below (
      step_over _ e n
        (double_until-reaches n ceiling base (value * 2) (e + 1) (omega (arith, pow_step e base))))
  | inr reached ↦ rw reached (inr (rw (← h) (ground arith)))
]

floor_of :
    (policy : RetryPolicy)
    → 0 < policy.rate_limit_min
    → max policy.rate_limit_min 1 ≡ policy.rate_limit_min
floor_of policy pos = omega arith

reached_max :
    (exponent : ℕ) (policy : RetryPolicy)
    → (exponent ≡ 0 + 16)
      ⊎ (max policy.rate_limit_max policy.rate_limit_min ≤ policy.rate_limit_min * 2 ^ exponent)
    → (exponent ≡ 16) ⊎ (policy.rate_limit_max ≤ policy.rate_limit_min * 2 ^ exponent)
reached_max exponent policy (inl h) = inl (omega arith)
reached_max exponent policy (inr h) = inr (omega arith)

-- At the exponent of `_cap_exponent` the doubled minimum, which is not 0, has reached the maximum,
-- unless the exponent is 16.
pub cap_exponent-reaches :
    (policy : RetryPolicy)
    → 0 < policy.rate_limit_min
    → (cap_exponent policy ≡ 16)
      ⊎ (policy.rate_limit_max ≤ policy.rate_limit_min * 2 ^ cap_exponent policy)
unfolding cap_exponent
cap_exponent-reaches policy pos = rw (floor_of policy pos) (
    reached_max _ policy (
      double_until-reaches max_origin_exponent (max policy.rate_limit_max policy.rate_limit_min)
        policy.rate_limit_min policy.rate_limit_min 0 (omega arith)))
