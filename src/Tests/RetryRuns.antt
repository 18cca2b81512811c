-- ===== src/Tests/RetryRuns.antt =====
-- The retry policy, the throttle clock and the post loop on a few failures.
use codex_shim.Prelude.{
  inr, ℕ, zero, suc, ◌*◌, ◌≤◌, ◌≡◌, ◌≢◌, refl, max, true, false, none, some, List, [], ◌∷◌, ◌++◌,
  arith, nat_eq, All,
}
use codex_shim.Retry.Policy.{
  rate_limit, quota, no_throttle, RetryPolicy, fresh_state, second, next_wait, after_wait,
  endless_kind, kind_for_policy,
}
use codex_shim.Retry.Policy.Budget.{IsWithinBudget, after_wait-IsWithinBudget}
use codex_shim.Retry.Throttle.{fresh_throttle, next_throttle_delay, cap_exponent}
use codex_shim.Retry.Throttle.Bounds.{next_throttle_delay-bounds}
use codex_shim.Retry.Loop.{
  Failure, Outcome, raised, answered, refused, posted, unfinished, Loop, post_from, throttle_sleep,
  retry_aiohttp_post,
}
use codex_shim.Retry.Loop.Termination.{is_endless, retry_aiohttp_post-ends}
use codex_shim.Retry.Connect.{Attempt, retry_aiohttp_ws_connect}
use codex_shim.Retry.Connect.Termination.{is_throttled, retry_aiohttp_ws_connect-ends}
use codex_shim.Retry.Urllib.{Fetch, request_urllib}
use codex_shim.Retry.Urllib.Termination.{is_limited, request_urllib-ends}
use codex_shim.Retry.Loop.Patience.{retry_aiohttp_post-patient}

-- the defaults, without jitter
abbrev policy : RetryPolicy
policy = record {
  attempts = 3;
  backoff_base = 500000000;
  backoff_factor = 2;
  wait_budget = 30 * second;
  rate_limit_min = 60 * second;
  rate_limit_max = 3600 * second;
  jitter = λ delay. delay;
}

abbrev gateway : Failure
gateway = record { classified = no_throttle; retryable = true; resets = none; gone = λ n. false }

abbrev limited : Failure
limited = record { classified = rate_limit; retryable = true; resets = none; gone = λ n. false }

-- a 503 that asks for five seconds, each time
abbrev refusal : Outcome
refusal = refused 503 (some (5 * second)) false gateway

abbrev refusals : ℕ → List Outcome
refusals zero = []
refusals (suc n) = refusal ∷ refusals n

refusals-finite : (n : ℕ) → All (λ o. is_endless policy o ≡ false) (refusals n)
unfolding is_endless endless_kind kind_for_policy
refusals-finite zero = tt
refusals-finite (suc n) = (refl, refusals-finite n)

abbrev throttled : List Outcome
throttled = refused 429 none false limited ∷ raised limited ∷ []

retry_aiohttp_post-ends_example : retry_aiohttp_post policy (refusals 12) ≢ unfinished
retry_aiohttp_post-ends_example =
    retry_aiohttp_post-ends policy (refusals 12) (refusals-finite 12) (omega arith)

retry_aiohttp_post-patient_example :
    (next : Loop) × (retry_aiohttp_post policy (throttled ++ answered 200 ∷ [])
      ≡ post_from policy next (answered 200 ∷ []))
    × (next.state ≡ fresh_state)
retry_aiohttp_post-patient_example =
    retry_aiohttp_post-patient policy throttled (answered 200 ∷ []) (omega arith)
      ((inr refl, λ n. refl), ((inr refl, λ n. refl), tt))

after_wait-IsWithinBudget_example : IsWithinBudget policy (after_wait fresh_state policy 500000000)
after_wait-IsWithinBudget_example =
    after_wait-IsWithinBudget policy fresh_state true none 500000000
      (record { waited = omega arith; extensions = omega arith; tries = omega arith })
      (unfold next_wait in refl)

next_throttle_delay-bounds_example :
    (policy.rate_limit_min
      ≤ (next_throttle_delay fresh_throttle quota policy none (some 5)).last_delay)
    × ((next_throttle_delay fresh_throttle quota policy none (some 5)).last_delay
        ≤ max policy.rate_limit_min policy.rate_limit_max)
    × ((next_throttle_delay fresh_throttle quota policy none (some 5)).exponent ≤ 16)
next_throttle_delay-bounds_example =
    next_throttle_delay-bounds fresh_throttle quota policy none (some 5)

-- a disconnect at the third poll, one second into a sleep of five
first_delays : cap_exponent policy ≡ 6
unfolding cap_exponent
first_delays = refl

slept : (throttle_sleep (5 * second) (λ n. nat_eq n 2)).slept ≡ second
unfolding throttle_sleep
slept = refl

-- two rate limits, then a response
patient_run : retry_aiohttp_post policy (throttled ++ answered 200 ∷ []) ≡ posted 200
unfolding retry_aiohttp_post codex_shim.Retry.Throttle.clamp
patient_run = refl

abbrev lost : ℕ → List Attempt
lost zero = []
lost (suc n) = Attempt.refused none none gateway ∷ lost n

lost-finite : (n : ℕ) → All (λ a. is_throttled policy a ≡ false) (lost n)
unfolding is_throttled endless_kind kind_for_policy
lost-finite zero = tt
lost-finite (suc n) = (refl, lost-finite n)

retry_aiohttp_ws_connect-ends_example :
    retry_aiohttp_ws_connect policy fresh_throttle (lost 12) ≢ unfinished
retry_aiohttp_ws_connect-ends_example =
    retry_aiohttp_ws_connect-ends policy fresh_throttle (lost 12) (lost-finite 12) (omega arith)

abbrev failed_fetches : ℕ → List Fetch
failed_fetches zero = []
failed_fetches (suc n) = Fetch.http_error 503 none gateway ∷ failed_fetches n

failed_fetches-finite : (n : ℕ) → All (λ x. is_limited policy x ≡ false) (failed_fetches n)
unfolding is_limited endless_kind kind_for_policy
failed_fetches-finite zero = tt
failed_fetches-finite (suc n) = (refl, failed_fetches-finite n)

request_urllib-ends_example : request_urllib policy false true (failed_fetches 12) ≢ unfinished
request_urllib-ends_example =
    request_urllib-ends policy false true (failed_fetches 12) (failed_fetches-finite 12)
      (omega arith)
