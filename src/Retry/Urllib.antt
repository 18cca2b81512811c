-- ===== src/Retry/Urllib.antt =====
-- `request_urllib` over a script of what each call of `urlopen` did.
pub mod Termination
use codex_shim.Prelude.{
  ℕ, zero, suc, Bool, true, false, Option, none, some, List, [], ◌∷◌, if◌then◌else◌,
}
use codex_shim.Retry.Policy.{
  RetryPolicy, RetryState, next_wait, record_wait, after_wait, inferred_retry_after, endless_kind,
  is_transport,
}
use codex_shim.Retry.Throttle.{next_throttle_delay}
use codex_shim.Retry.Loop.{
  Failure, Ending, posted, posted_error, raised_exc, raised_runtime_error, unfinished, Loop, start,
  Step, stop, again, resets_of, kind_of,
}

-- A response that is read (and is JSON where that is asked for), an `HTTPError` with its code and the
-- hint of `parse_retry_after`, or another of the caught exceptions, with the value of `retryable`.
pub data Fetch : Type 0 where
  fetched : (status : ℕ) → Fetch
  http_error : (code : ℕ) (hinted : Option ℕ) → Failure → Fetch
  broken : (retryable : Bool) → Fetch

-- throttle_sleep_sync, which raises `RuntimeError` for a delay on the running event loop where no
-- `sleep_fn` is given; the flag says that.
unfoldable pub sleep_sync : (blocked : Bool) → ℕ → Loop → Step
sleep_sync blocked zero next = again next
sleep_sync false (suc delay) next = again next
sleep_sync true (suc delay) next = stop raised_runtime_error

-- What follows `state.next_wait`, with the state that the wait is recorded in.
unfoldable pub sync_wait_or : (blocked : Bool) → Loop → Ending → (ℕ → RetryState) → Option ℕ → Step
unfolding sleep_sync
sync_wait_or blocked l end recorded none = stop end
sync_wait_or blocked l end recorded (some wait) =
    sleep_sync blocked wait (record l { state = recorded wait })

-- if raise_on_http_error: raise
abbrev pub http_ending : Bool → ℕ → Ending
http_ending true code = raised_exc
http_ending false code = posted_error code

unfoldable pub after_http_error :
    RetryPolicy → (blocked raise_on_http_error : Bool) → Loop → ℕ → Option ℕ → Failure → Step
unfolding kind_of endless_kind next_throttle_delay sleep_sync sync_wait_or next_wait after_wait
    inferred_retry_after
after_http_error policy blocked raise_on_http_error l code hinted f =
    let retry_after = inferred_retry_after (some code) hinted in
    let throttle =
      next_throttle_delay l.throttle (kind_of f) policy retry_after
        (resets_of (kind_of f) f.resets) in
    if endless_kind (kind_of f) policy
    then sleep_sync blocked throttle.last_delay (record l { throttle = throttle })
    else sync_wait_or blocked l (http_ending raise_on_http_error code) (after_wait l.state policy)
        (next_wait l.state policy (is_transport (kind_of f)) retry_after)

unfoldable pub fetch_once : RetryPolicy → (blocked raise_on_http_error : Bool) → Loop → Fetch → Step
unfolding after_http_error sync_wait_or next_wait record_wait
fetch_once policy blocked raise_on l (fetched status) = stop (posted status)
fetch_once policy blocked raise_on l (http_error code hinted f) =
    after_http_error policy blocked raise_on l code hinted f
fetch_once policy blocked raise_on l (broken retryable) =
    sync_wait_or blocked l raised_exc (λ wait. record_wait l.state wait false)
      (next_wait l.state policy retryable none)

unfoldable pub fetch_from :
    RetryPolicy → (blocked raise_on_http_error : Bool) → Loop → List Fetch → Ending
unfolding fetch_once
fetch_from policy blocked raise_on l [] = unfinished
fetch_from policy blocked raise_on l (x ∷ xs) = elim (fetch_once policy blocked raise_on l x) [
  | stop result ↦ result
  | again next ↦ fetch_from policy blocked raise_on next xs
]

unfoldable pub request_urllib :
    RetryPolicy → (blocked raise_on_http_error : Bool) → List Fetch → Ending
unfolding fetch_from
request_urllib policy blocked raise_on fetches = fetch_from policy blocked raise_on start fetches
