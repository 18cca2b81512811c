-- ===== src/Retry/Loop/Termination.antt =====
-- How the retry loop ends, and how long `throttle_sleep` sleeps.
use codex_shim.Prelude.{
  ℕ, zero, suc, ◌+◌, ◌-◌, ◌≤◌, ◌<◌, ◌≡◌, ◌≢◌, refl, ◌⊎◌, inl, inr, Bool, true, false, Option, none,
  some, List, [], ◌∷◌, length, min, arith, All, if◌then◌else◌,
}
use mathlib.Core.Path.{subst}
use codex_shim.Retry.Policy.{
  Kind, RetryPolicy, RetryState, next_wait, after_wait, endless_kind, is_transport,
  inferred_retry_after, second,
}
use codex_shim.Retry.Policy.Budget.{IsWithinBudget, after_wait-IsWithinBudget}
use codex_shim.Retry.Loop.{
  naps, throttle_sleep, Failure, Outcome, raised, answered, refused, Ending, unfinished, raised_exc,
  Loop, start, Step, stop, again, unless_gone, gone_in_wait, kind_of, handle_endless_throttle,
  wait_or, after_exception, after_refusal, error_ending, raise_if, post_once, post_from,
  retry_aiohttp_post,
}

naps_lem :
    (rounds remaining : ℕ) (gone : ℕ → Bool)
    → remaining ≤ rounds
    → let nap = naps rounds remaining gone in
      (nap.slept ≤ remaining) × ((nap.gone ≡ true) ⊎ (nap.slept ≡ remaining))
unfolding naps
naps_lem zero remaining gone le = (omega arith, inr (omega arith))
naps_lem (suc rounds) zero gone le = (omega arith, inr refl)
naps_lem (suc rounds) (suc remaining) gone le = ground (
  arith,
  naps_lem rounds (suc remaining - min (suc remaining) second) (λ n. gone (suc n)) (omega arith),
)

-- Whatever `disconnect_fn` answers, `throttle_sleep` sleeps at most the delay, and where it does not
-- raise it sleeps the whole of it.
pub throttle_sleep-slept :
    (delay : ℕ) (gone : ℕ → Bool)
    → let nap = throttle_sleep delay gone in
      (nap.slept ≤ delay) × ((nap.gone ≡ true) ⊎ (nap.slept ≡ delay))
unfolding throttle_sleep
throttle_sleep-slept delay gone =
    ground (arith, naps_lem delay delay (λ n. gone (suc n)) (omega arith))

-- A failure that the loop waits out however often it comes: a rate limit or a quota.
unfoldable pub is_endless : RetryPolicy → Outcome → Bool
unfolding kind_of
is_endless policy (raised f) = endless_kind (kind_of f) policy
is_endless policy (answered status) = false
is_endless policy (refused status hinted body_error f) = endless_kind (kind_of f) policy

again_inj : {l m : Loop} → again l ≡ again m → l ≡ m
again_inj = cc

unless_gone-again : (gone : Bool) {l next : Loop} → unless_gone gone l ≡ again next → l ≡ next
unless_gone-again true e = cc
unless_gone-again false e = cc

abbrev pub NextBudget : (policy : RetryPolicy) → Loop → Loop → Type 0
NextBudget policy l next =
    IsWithinBudget policy next.state × (next.state.attempt ≡ l.state.attempt + 1)

pub after_wait-attempt :
    (s : RetryState) (policy : RetryPolicy) (wait : ℕ)
    → (after_wait s policy wait).attempt ≡ s.attempt + 1
unfolding after_wait
after_wait-attempt s policy wait = ground arith

pub wait_or-again :
    (policy : RetryPolicy) (l : Loop) (f : Failure) (end : Ending) (retryable : Bool)
    (retry_after wait : Option ℕ) (next : Loop)
    → IsWithinBudget policy l.state
    → next_wait l.state policy retryable retry_after ≡ wait
    → wait_or policy l f end wait ≡ again next
    → NextBudget policy l next
unfolding wait_or
wait_or-again policy l f end retryable retry_after none next w granted e = cc
wait_or-again policy l f end retryable retry_after (some wait) next w granted e =
    rw (← unless_gone-again (gone_in_wait wait f) e) (
      after_wait-IsWithinBudget policy l.state retryable retry_after wait w granted,
      after_wait-attempt l.state policy wait,
    )

pub if_false : {b : Bool} {y z : Step} → b ≡ false → (x : Step) → (if b then x else y) ≡ z → y ≡ z
if_false {b = false} finite x e = e
if_false {b = true} finite x e = cc

pub step_cases : (s : Step) → ((end : Ending) × (s ≡ stop end)) ⊎ ((next : Loop) × (s ≡ again next))
step_cases (stop end) = inl (end, refl)
step_cases (again next) = inr (next, refl)

-- A round that goes on after a failure that is not endless has used one more attempt.
post_once-again :
    (policy : RetryPolicy) (l : Loop) (o : Outcome) (next : Loop)
    → IsWithinBudget policy l.state
    → is_endless policy o ≡ false
    → post_once policy l o ≡ again next
    → NextBudget policy l next
unfolding is_endless post_once after_exception after_refusal
post_once-again policy l (answered status) next w finite e = cc
post_once-again policy l (raised f) next w finite e =
    wait_or-again policy l f raised_exc (is_transport (kind_of f)) none _ next w refl
      (if_false finite _ e)
post_once-again policy l (refused status hinted body_error f) next w finite e =
    wait_or-again policy l f (error_ending body_error status) (is_transport (kind_of f))
      (inferred_retry_after (some status) hinted) _ next w refl (if_false finite _ e)

-- An ending that the code gives; `unfinished` is the script's.
abbrev pub IsReal : Step → Type 0
IsReal (stop end) = end ≢ unfinished
IsReal (again next) = Unit

unless_gone-IsReal : (gone : Bool) (l : Loop) → IsReal (unless_gone gone l)
unless_gone-IsReal true l = λ e. cc
unless_gone-IsReal false l = tt

pub wait_or-IsReal :
    (policy : RetryPolicy) (l : Loop) (f : Failure) (end : Ending) (wait : Option ℕ)
    → end ≢ unfinished
    → IsReal (wait_or policy l f end wait)
unfolding wait_or
wait_or-IsReal policy l f end none real = real
wait_or-IsReal policy l f end (some wait) real = unless_gone-IsReal (gone_in_wait wait f) _

raise_if-IsReal : (b : Bool) (s : Step) → IsReal s → IsReal (raise_if b s)
raise_if-IsReal true (again l) real = λ e. cc
raise_if-IsReal true (stop end) real = real
raise_if-IsReal false s real = real

pub if-IsReal : (b : Bool) (x y : Step) → IsReal x → IsReal y → IsReal (if b then x else y)
if-IsReal true x y p q = p
if-IsReal false x y p q = q

pub handle-IsReal :
    (policy : RetryPolicy) (l : Loop) (kind : Kind) (retry_after : Option ℕ) (f : Failure)
    → IsReal (handle_endless_throttle policy l kind retry_after f)
unfolding handle_endless_throttle
handle-IsReal policy l kind retry_after f = unless_gone-IsReal _ _

error-IsReal : (body_error : Bool) (status : ℕ) → error_ending body_error status ≢ unfinished
error-IsReal true status = λ e. cc
error-IsReal false status = λ e. cc

post_once-IsReal : (policy : RetryPolicy) (l : Loop) (o : Outcome) → IsReal (post_once policy l o)
unfolding post_once after_exception after_refusal
post_once-IsReal policy l (answered status) = λ e. cc
post_once-IsReal policy l (raised f) =
    if-IsReal (endless_kind (kind_of f) policy) _ _ (handle-IsReal policy l (kind_of f) none f)
      (wait_or-IsReal policy l f raised_exc _ (λ e. cc))
post_once-IsReal policy l (refused status hinted body_error f) =
    if-IsReal (endless_kind (kind_of f) policy) _ _
      (raise_if-IsReal _ _ (handle-IsReal policy l (kind_of f) _ f))
      (wait_or-IsReal policy l f (error_ending body_error status) _
        (error-IsReal body_error status))

pub post_from-again :
    (policy : RetryPolicy) (l : Loop) (o : Outcome) (os : List Outcome) (next : Loop)
    → post_once policy l o ≡ again next
    → post_from policy l (o ∷ os) ≡ post_from policy next os
unfolding post_from
post_from-again policy l o os next e = rw (e, post_from) refl

post_from-stop :
    (policy : RetryPolicy) (l : Loop) (o : Outcome) (os : List Outcome) (end : Ending)
    → post_once policy l o ≡ stop end
    → post_from policy l (o ∷ os) ≡ end
unfolding post_from
post_from-stop policy l o os end e = rw (e, post_from) refl

pub one_more : (bound n a b : ℕ) → b ≡ a + 1 → bound < suc n + a → bound < n + b
one_more bound n a b e enough = omega arith

post_from-ends :
    (policy : RetryPolicy) (l : Loop) (outcomes : List Outcome)
    → IsWithinBudget policy l.state
    → All (λ o. is_endless policy o ≡ false) outcomes
    → policy.attempts + 8 < length outcomes + l.state.attempt
    → post_from policy l outcomes ≢ unfinished
post_from-ends policy l [] w all enough = λ _. omega arith
post_from-ends policy l (o ∷ os) w (f, finite) enough = elim (step_cases (post_once policy l o)) [
  | inl (end, e) ↦
      rw (post_from-stop policy l o os end e) (subst IsReal e (post_once-IsReal policy l o))
  | inr (next, e) ↦ rw (post_from-again policy l o os next e) (
      let kept = post_once-again policy l o next w f e in
      post_from-ends policy next os kept.0 finite (one_more _ _ _ _ kept.1 enough))
]

start-IsWithinBudget : (policy : RetryPolicy) → IsWithinBudget policy start.state
start-IsWithinBudget policy = record {
  waited = omega arith;
  extensions = omega arith;
  tries = omega arith;
}

-- Where no failure is a rate limit or a quota, the loop has ended, with a response or an exception,
-- within the policy's attempts and nine more posts.
pub retry_aiohttp_post-ends :
    (policy : RetryPolicy) (outcomes : List Outcome)
    → All (λ o. is_endless policy o ≡ false) outcomes
    → policy.attempts + 8 < length outcomes
    → retry_aiohttp_post policy outcomes ≢ unfinished
unfolding retry_aiohttp_post
retry_aiohttp_post-ends policy outcomes finite enough =
    post_from-ends policy start outcomes (start-IsWithinBudget policy) finite (omega arith)
