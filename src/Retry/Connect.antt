-- ===== src/Retry/Connect.antt =====
-- `retry_aiohttp_ws_connect` over a script of what each `session.ws_connect` did.
pub mod Termination
use codex_shim.Prelude.{ℕ, Bool, true, false, Option, none, some, List, [], ◌∷◌, if◌then◌else◌}
use codex_shim.Retry.Policy.{
  RetryPolicy, fresh_state, next_wait, inferred_retry_after, endless_kind, is_transport,
}
use codex_shim.Retry.Throttle.{RequestThrottle}
use codex_shim.Retry.Loop.{
  Failure, Ending, connected, raised_exc, client_disconnected, unfinished, Loop, Step, stop, again,
  kind_of, handle_endless_throttle, wait_or,
}

-- One round: what `disconnect_fn` answers at its start, then the connection, or an exception with
-- the status that it carries and the hint of `parse_retry_after`.
pub data Attempt : Type 0 where
  leaving : Attempt
  opened : Attempt
  refused : (status hinted : Option ℕ) → Failure → Attempt

unfoldable pub after_connect_error :
    RetryPolicy → Loop → (status hinted : Option ℕ) → Failure → Step
unfolding kind_of endless_kind handle_endless_throttle wait_or next_wait inferred_retry_after
after_connect_error policy l status hinted f =
    if endless_kind (kind_of f) policy
    then handle_endless_throttle policy l (kind_of f) (inferred_retry_after status hinted) f
    else wait_or policy l f raised_exc (next_wait l.state policy (is_transport (kind_of f)) none)

unfoldable pub connect_once : RetryPolicy → Loop → Attempt → Step
unfolding after_connect_error
connect_once policy l leaving = stop client_disconnected
connect_once policy l opened = stop connected
connect_once policy l (refused status hinted f) = after_connect_error policy l status hinted f

unfoldable pub connect_from : RetryPolicy → Loop → List Attempt → Ending
unfolding connect_once
connect_from policy l [] = unfinished
connect_from policy l (a ∷ attempts) = elim (connect_once policy l a) [
  | stop result ↦ result
  | again next ↦ connect_from policy next attempts
]

-- The clock may be the connection's own, from earlier calls.
unfoldable pub retry_aiohttp_ws_connect : RetryPolicy → RequestThrottle → List Attempt → Ending
unfolding connect_from
retry_aiohttp_ws_connect policy throttle attempts =
    connect_from policy (record { state = fresh_state; throttle = throttle }) attempts
