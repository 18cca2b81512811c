-- ===== src/Retry/Urllib/Termination.antt =====
-- How `request_urllib` ends.
use mathlib.Core.Path.{subst}
use codex_shim.Prelude.{
  ℕ, zero, suc, ◌+◌, ◌<◌, ◌≡◌, ◌≢◌, refl, inl, inr, Bool, true, false, Option, none, some, List, [],
  ◌∷◌, arith, length, All,
}
use codex_shim.Retry.Policy.{
  RetryPolicy, RetryState, endless_kind, is_transport, next_wait, after_wait, record_wait,
  inferred_retry_after,
}
use codex_shim.Retry.Policy.Budget.{IsWithinBudget, after_wait-IsWithinBudget}
use codex_shim.Retry.Loop.{Ending, raised_exc, unfinished, Loop, stop, again, kind_of}
use codex_shim.Retry.Loop.Termination.{
  NextBudget, IsReal, if-IsReal, if_false, step_cases, one_more, after_wait-attempt,
}
use codex_shim.Retry.Urllib.{
  Fetch, fetched, http_error, broken, sleep_sync, sync_wait_or, http_ending, after_http_error,
  fetch_once, fetch_from, request_urllib,
}

-- A failure that the loop waits out however often it comes.
unfoldable pub is_limited : RetryPolicy → Fetch → Bool
unfolding kind_of endless_kind
is_limited policy (http_error code hinted f) = endless_kind (kind_of f) policy
is_limited policy (fetched status) = false
is_limited policy (broken retryable) = false

sleep_sync-again :
    (blocked : Bool) (wait : ℕ) (l next : Loop) → sleep_sync blocked wait l ≡ again next → l ≡ next
unfolding sleep_sync
sleep_sync-again blocked zero l next e = cc
sleep_sync-again false (suc wait) l next e = cc
sleep_sync-again true (suc wait) l next e = cc

sleep_sync-IsReal : (blocked : Bool) (wait : ℕ) (l : Loop) → IsReal (sleep_sync blocked wait l)
unfolding sleep_sync
sleep_sync-IsReal blocked zero l = tt
sleep_sync-IsReal false (suc wait) l = tt
sleep_sync-IsReal true (suc wait) l = λ e. cc

sync_wait_or-IsReal :
    (blocked : Bool) (l : Loop) (end : Ending) (recorded : ℕ → RetryState) (wait : Option ℕ)
    → end ≢ unfinished
    → IsReal (sync_wait_or blocked l end recorded wait)
unfolding sync_wait_or
sync_wait_or-IsReal blocked l end recorded none real = real
sync_wait_or-IsReal blocked l end recorded (some wait) real = sleep_sync-IsReal blocked wait _

http_error-IsReal : (raise_on : Bool) (code : ℕ) → http_ending raise_on code ≢ unfinished
http_error-IsReal true code = λ e. cc
http_error-IsReal false code = λ e. cc

fetch_once-IsReal :
    (policy : RetryPolicy) (blocked raise_on : Bool) (l : Loop) (x : Fetch)
    → IsReal (fetch_once policy blocked raise_on l x)
unfolding fetch_once after_http_error
fetch_once-IsReal policy blocked raise_on l (fetched status) = λ e. cc
fetch_once-IsReal policy blocked raise_on l (broken retryable) =
    sync_wait_or-IsReal blocked l raised_exc _ _ (λ e. cc)
fetch_once-IsReal policy blocked raise_on l (http_error code hinted f) =
    if-IsReal (endless_kind (kind_of f) policy) _ _ (sleep_sync-IsReal blocked _ _) (
      sync_wait_or-IsReal blocked l (http_ending raise_on code) _ _
        (http_error-IsReal raise_on code))

-- A recorded wait keeps the budget and counts one attempt.
Keeps : RetryPolicy → Loop → (ℕ → RetryState) → Option ℕ → Type 0
Keeps policy l recorded granted =
    (wait : ℕ)
    → granted ≡ some wait
    → IsWithinBudget policy (recorded wait) × ((recorded wait).attempt ≡ l.state.attempt + 1)

sync_wait_or-again :
    (policy : RetryPolicy) (blocked : Bool) (l : Loop) (end : Ending) (recorded : ℕ → RetryState)
    (granted : Option ℕ) (next : Loop)
    → Keeps policy l recorded granted
    → sync_wait_or blocked l end recorded granted ≡ again next
    → NextBudget policy l next
unfolding sync_wait_or Keeps
sync_wait_or-again policy blocked l end recorded none next keeps e = cc
sync_wait_or-again policy blocked l end recorded (some wait) next keeps e =
    rw (← sleep_sync-again blocked wait (record l { state = recorded wait }) next e)
      (keeps wait refl)

broken-Keeps :
    (policy : RetryPolicy) (l : Loop) (retryable : Bool)
    → IsWithinBudget policy l.state
    → Keeps policy l
        (λ wait. record_wait l.state wait false)
        (next_wait l.state policy retryable none)
unfolding Keeps next_wait record_wait
broken-Keeps policy l true w wait e = (ground arith, ground arith)
broken-Keeps policy l false w wait e = cc

http-Keeps :
    (policy : RetryPolicy) (l : Loop) (retryable : Bool) (retry_after : Option ℕ)
    → IsWithinBudget policy l.state
    → Keeps policy l (after_wait l.state policy) (next_wait l.state policy retryable retry_after)
unfolding Keeps
http-Keeps policy l retryable retry_after w wait e = (
  after_wait-IsWithinBudget policy l.state retryable retry_after wait w e,
  after_wait-attempt l.state policy wait,
)

fetch_once-again :
    (policy : RetryPolicy) (blocked raise_on : Bool) (l : Loop) (x : Fetch) (next : Loop)
    → IsWithinBudget policy l.state
    → is_limited policy x ≡ false
    → fetch_once policy blocked raise_on l x ≡ again next
    → NextBudget policy l next
unfolding is_limited fetch_once after_http_error
fetch_once-again policy blocked raise_on l (fetched status) next w finite e = cc
fetch_once-again policy blocked raise_on l (broken retryable) next w finite e =
    sync_wait_or-again policy blocked l raised_exc _ _ next (broken-Keeps policy l retryable w) e
fetch_once-again policy blocked raise_on l (http_error code hinted f) next w finite e =
    sync_wait_or-again policy blocked l (http_ending raise_on code) _ _ next
      (http-Keeps policy l (is_transport (kind_of f)) (inferred_retry_after (some code) hinted) w)
      (if_false finite _ e)

fetch_from-again :
    (policy : RetryPolicy) (blocked raise_on : Bool) (l : Loop) (x : Fetch) (xs : List Fetch)
    (next : Loop)
    → fetch_once policy blocked raise_on l x ≡ again next
    → fetch_from policy blocked raise_on l (x ∷ xs) ≡ fetch_from policy blocked raise_on next xs
unfolding fetch_from
fetch_from-again policy blocked raise_on l x xs next e = rw (e, fetch_from) refl

fetch_from-stop :
    (policy : RetryPolicy) (blocked raise_on : Bool) (l : Loop) (x : Fetch) (xs : List Fetch)
    (end : Ending)
    → fetch_once policy blocked raise_on l x ≡ stop end
    → fetch_from policy blocked raise_on l (x ∷ xs) ≡ end
unfolding fetch_from
fetch_from-stop policy blocked raise_on l x xs end e = rw (e, fetch_from) refl

fetch_from-ends :
    (policy : RetryPolicy) (blocked raise_on : Bool) (l : Loop) (xs : List Fetch)
    → IsWithinBudget policy l.state
    → All (λ x. is_limited policy x ≡ false) xs
    → policy.attempts + 8 < length xs + l.state.attempt
    → fetch_from policy blocked raise_on l xs ≢ unfinished
fetch_from-ends policy blocked raise_on l [] w all enough = λ _. omega arith
fetch_from-ends policy blocked raise_on l (x ∷ xs) w (f, finite) enough =
    elim (step_cases (fetch_once policy blocked raise_on l x)) [
      | inl (end, e) ↦
          rw (fetch_from-stop policy blocked raise_on l x xs end e)
            (subst IsReal e (fetch_once-IsReal policy blocked raise_on l x))
      | inr (next, e) ↦ rw (fetch_from-again policy blocked raise_on l x xs next e) (
          let kept = fetch_once-again policy blocked raise_on l x next w f e in
          fetch_from-ends policy blocked raise_on next xs kept.0 finite
            (one_more _ (length xs) _ _ kept.1 enough))
    ]

-- Where no failure is a rate limit or a quota, `request_urllib` has ended, with a result or an
-- exception, within the policy's attempts and nine more requests.
pub request_urllib-ends :
    (policy : RetryPolicy) (blocked raise_on_http_error : Bool) (fetches : List Fetch)
    → All (λ x. is_limited policy x ≡ false) fetches
    → policy.attempts + 8 < length fetches
    → request_urllib policy blocked raise_on_http_error fetches ≢ unfinished
unfolding request_urllib
request_urllib-ends policy blocked raise_on fetches finite enough =
    fetch_from-ends policy blocked raise_on _ fetches
      (record { waited = omega arith; extensions = omega arith; tries = omega arith }) finite
      (omega arith)
