-- ===== src/Retry/Loop.antt =====
-- `retry_aiohttp_post` over a script of what each `session.post` did, and `throttle_sleep`.
pub mod Termination
pub mod Patience
use codex_shim.Prelude.{
  ℕ, zero, suc, ◌+◌, ◌-◌, min, Bool, true, false, ◌&&◌, Option, none, some, List, [], ◌∷◌,
  if◌then◌else◌,
}
use codex_shim.Retry.Policy.{
  Kind, quota, RetryPolicy, RetryState, next_wait, after_wait, fresh_state, second,
  inferred_retry_after, kind_for_policy, endless_kind, is_transport,
}
use codex_shim.Retry.Throttle.{RequestThrottle, fresh_throttle, next_throttle_delay}

-- The nanoseconds slept, and whether `ClientDisconnected` was raised.
pub record Nap : Type 0 where
  pub slept : ℕ
  pub gone : Bool

abbrev pub longer : ℕ → Nap → Nap
longer chunk nap = record { slept = chunk + nap.slept; gone = nap.gone }

abbrev pub no_nap : Bool → Nap
no_nap gone = record { slept = 0; gone = gone }

-- while remaining > 0, each round at most a second; the first number bounds the rounds, and the
-- function is what `disconnect_fn` answers at each of its calls.
unfoldable pub naps : ℕ → ℕ → (ℕ → Bool) → Nap
naps zero remaining gone = no_nap false
naps (suc rounds) zero gone = no_nap false
naps (suc rounds) (suc remaining) gone =
    let chunk = min (suc remaining) second in
    let rest = naps rounds (suc remaining - chunk) (λ n. gone (suc n)) in
    if gone 0 then no_nap true else longer chunk rest

-- Where the source has no `disconnect_fn`, it answers false.
unfoldable pub throttle_sleep : ℕ → (ℕ → Bool) → Nap
unfolding naps
throttle_sleep delay gone =
    let rest = naps delay delay (λ n. gone (suc n)) in if gone 0 then no_nap true else rest

-- What `classify_throttle`, `policy.is_retryable` and `parse_resets_in_seconds` say of a failure, and
-- what `disconnect_fn` answers during the wait that follows.
pub record Failure : Type 0 where
  pub classified : Kind
  pub retryable : Bool
  pub resets : Option ℕ
  pub gone : ℕ → Bool

-- What `session.post` did: it raised, or gave a response whose status is below 400, or another
-- response, with the hint of `parse_retry_after`, of which `text` may raise.
pub data Outcome : Type 0 where
  raised : Failure → Outcome
  answered : (status : ℕ) → Outcome
  refused : (status : ℕ) (hinted : Option ℕ) (body_error : Bool) → Failure → Outcome

pub data Ending : Type 0 where
  posted posted_error : (status : ℕ) → Ending
  raised_exc raised_body_error raised_runtime_error client_disconnected connected unfinished :
      Ending

pub record Loop : Type 0 where
  pub state : RetryState
  pub throttle : RequestThrottle

abbrev pub start : Loop
start = record { state = fresh_state; throttle = fresh_throttle }

pub data Step : Type 0 where
  stop : Ending → Step
  again : Loop → Step

abbrev pub resets_of : Kind → Option ℕ → Option ℕ
resets_of quota resets = resets
resets_of _ resets = none

abbrev pub unless_gone : Bool → Loop → Step
unless_gone true l = stop client_disconnected
unless_gone false l = again l

-- _handle_endless_throttle, then `continue`
unfoldable pub handle_endless_throttle : RetryPolicy → Loop → Kind → Option ℕ → Failure → Step
unfolding next_throttle_delay throttle_sleep
handle_endless_throttle policy l kind retry_after f =
    let throttle =
      next_throttle_delay l.throttle kind policy retry_after (resets_of kind f.resets) in
    unless_gone (throttle_sleep throttle.last_delay f.gone).gone (record l { throttle = throttle })

-- if wait > 0: await throttle_sleep(...)
abbrev pub gone_in_wait : ℕ → Failure → Bool
gone_in_wait zero f = false
gone_in_wait (suc n) f = (throttle_sleep (suc n) f.gone).gone

-- What follows `state.next_wait`: the ending where it gives none, else the wait and its record.
unfoldable pub wait_or : RetryPolicy → Loop → Failure → Ending → Option ℕ → Step
unfolding after_wait throttle_sleep
wait_or policy l f end none = stop end
wait_or policy l f end (some wait) =
    unless_gone (gone_in_wait wait f) (record l { state = after_wait l.state policy wait })

unfoldable pub kind_of : Failure → Kind
unfolding kind_for_policy
kind_of f = kind_for_policy f.classified f.retryable

unfoldable pub after_exception : RetryPolicy → Loop → Failure → Step
unfolding kind_of endless_kind handle_endless_throttle wait_or next_wait
after_exception policy l f =
    if endless_kind (kind_of f) policy
    then handle_endless_throttle policy l (kind_of f) none f
    else wait_or policy l f raised_exc (next_wait l.state policy (is_transport (kind_of f)) none)

abbrev pub error_ending : Bool → ℕ → Ending
error_ending true status = raised_body_error
error_ending false status = posted_error status

-- if body_error is not None and kind == THROTTLE_TRANSPORT: raise body_error
abbrev pub raise_if : Bool → Step → Step
raise_if true (again l) = stop raised_body_error
raise_if _ step = step

unfoldable pub after_refusal : RetryPolicy → Loop → ℕ → Option ℕ → Bool → Failure → Step
unfolding kind_of endless_kind handle_endless_throttle wait_or next_wait inferred_retry_after
after_refusal policy l status hinted body_error f =
    let retry_after = inferred_retry_after (some status) hinted in
    if endless_kind (kind_of f) policy
    then raise_if (body_error && is_transport (kind_of f))
        (handle_endless_throttle policy l (kind_of f) retry_after f)
    else wait_or policy l f (error_ending body_error status)
        (next_wait l.state policy (is_transport (kind_of f)) retry_after)

-- One round of `while True`.
unfoldable pub post_once : RetryPolicy → Loop → Outcome → Step
unfolding after_exception after_refusal
post_once policy l (raised f) = after_exception policy l f
post_once policy l (answered status) = stop (posted status)
post_once policy l (refused status hinted body_error f) =
    after_refusal policy l status hinted body_error f

-- `unfinished`: the script ended before the loop did.
unfoldable pub post_from : RetryPolicy → Loop → List Outcome → Ending
unfolding post_once
post_from policy l [] = unfinished
post_from policy l (o ∷ os) = elim (post_once policy l o) [
  | stop end ↦ end
  | again next ↦ post_from policy next os
]

unfoldable pub retry_aiohttp_post : RetryPolicy → List Outcome → Ending
unfolding post_from
retry_aiohttp_post policy outcomes = post_from policy start outcomes
