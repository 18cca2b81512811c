-- ===== src/Retry/Connect/Termination.antt =====
-- How the connection loop ends.
use mathlib.Core.Path.{subst}
use codex_shim.Prelude.{
  ◌+◌, ◌<◌, ◌≡◌, ◌≢◌, refl, inl, inr, Bool, false, none, List, [], ◌∷◌, arith, length, All,
}
use codex_shim.Retry.Policy.{RetryPolicy, endless_kind, is_transport}
use codex_shim.Retry.Policy.Budget.{IsWithinBudget}
use codex_shim.Retry.Throttle.{RequestThrottle}
use codex_shim.Retry.Loop.{Ending, raised_exc, unfinished, Loop, stop, again, kind_of}
use codex_shim.Retry.Loop.Termination.{
  NextBudget, IsReal, wait_or-again, wait_or-IsReal, if-IsReal, handle-IsReal, if_false, step_cases,
  one_more,
}
use codex_shim.Retry.Connect.{
  Attempt, leaving, opened, refused, after_connect_error, connect_once, connect_from,
  retry_aiohttp_ws_connect,
}

-- A failure that the loop waits out however often it comes.
unfoldable pub is_throttled : RetryPolicy → Attempt → Bool
unfolding kind_of endless_kind
is_throttled policy (refused status hinted f) = endless_kind (kind_of f) policy
is_throttled policy leaving = false
is_throttled policy opened = false

connect_once-again :
    (policy : RetryPolicy) (l : Loop) (a : Attempt) (next : Loop)
    → IsWithinBudget policy l.state
    → is_throttled policy a ≡ false
    → connect_once policy l a ≡ again next
    → NextBudget policy l next
unfolding is_throttled connect_once after_connect_error
connect_once-again policy l leaving next w finite e = cc
connect_once-again policy l opened next w finite e = cc
connect_once-again policy l (refused status hinted f) next w finite e =
    wait_or-again policy l f raised_exc (is_transport (kind_of f)) none _ next w refl
      (if_false finite _ e)

connect_once-IsReal :
    (policy : RetryPolicy) (l : Loop) (a : Attempt) → IsReal (connect_once policy l a)
unfolding connect_once after_connect_error
connect_once-IsReal policy l leaving = λ e. cc
connect_once-IsReal policy l opened = λ e. cc
connect_once-IsReal policy l (refused status hinted f) =
    if-IsReal (endless_kind (kind_of f) policy) _ _ (handle-IsReal policy l (kind_of f) _ f)
      (wait_or-IsReal policy l f raised_exc _ (λ e. cc))

connect_from-again :
    (policy : RetryPolicy) (l : Loop) (a : Attempt) (as' : List Attempt) (next : Loop)
    → connect_once policy l a ≡ again next
    → connect_from policy l (a ∷ as') ≡ connect_from policy next as'
unfolding connect_from
connect_from-again policy l a as' next e = rw (e, connect_from) refl

connect_from-stop :
    (policy : RetryPolicy) (l : Loop) (a : Attempt) (as' : List Attempt) (end : Ending)
    → connect_once policy l a ≡ stop end
    → connect_from policy l (a ∷ as') ≡ end
unfolding connect_from
connect_from-stop policy l a as' end e = rw (e, connect_from) refl

connect_from-ends :
    (policy : RetryPolicy) (l : Loop) (attempts : List Attempt)
    → IsWithinBudget policy l.state
    → All (λ a. is_throttled policy a ≡ false) attempts
    → policy.attempts + 8 < length attempts + l.state.attempt
    → connect_from policy l attempts ≢ unfinished
connect_from-ends policy l [] w all enough = λ _. omega arith
connect_from-ends policy l (a ∷ attempts) w (f, finite) enough =
    elim (step_cases (connect_once policy l a)) [
      | inl (end, e) ↦
          rw (connect_from-stop policy l a attempts end e)
            (subst IsReal e (connect_once-IsReal policy l a))
      | inr (next, e) ↦ rw (connect_from-again policy l a attempts next e) (
          let kept = connect_once-again policy l a next w f e in
          connect_from-ends policy next attempts kept.0 finite
            (one_more _ (length attempts) _ _ kept.1 enough))
    ]

-- Where no failure is a rate limit or a quota, the connection loop has ended, with a connection or an
-- exception, within the policy's attempts and nine more connections, whatever the clock.
pub retry_aiohttp_ws_connect-ends :
    (policy : RetryPolicy) (throttle : RequestThrottle) (attempts : List Attempt)
    → All (λ a. is_throttled policy a ≡ false) attempts
    → policy.attempts + 8 < length attempts
    → retry_aiohttp_ws_connect policy throttle attempts ≢ unfinished
unfolding retry_aiohttp_ws_connect
retry_aiohttp_ws_connect-ends policy throttle attempts finite enough =
    connect_from-ends policy _ attempts
      (record { waited = omega arith; extensions = omega arith; tries = omega arith }) finite
      (omega arith)
