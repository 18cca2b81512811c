-- ===== src/Tests/SocketRuns.antt =====
-- A WebSocket turn whose upstream sends an error that Codex does not map, and then stops.
use codex_shim.Prelude.{◌≤◌, ◌≡◌, refl, List, [], ◌∷◌, codes, text_eq, mem}
use codex_shim.Json.{Fields, field, end, str, find}
use codex_shim.Pipeline.Items.{text_field, has_type}
use codex_shim.Emitters.{write_all}
use codex_shim.Emitters.Terminals.{staying}
use codex_shim.Emitters.Socket.{
  new_ws_relay, observe_ws, codex_maps_ws_error, ws_complete, emit_failed, ws_error_code_message,
  event_value, error_body,
}
use codex_shim.Emitters.Socket.Once.{failures, is_failure}
use codex_shim.Emitters.Socket.Calls.{
  SocketCall, observes, completes, fails, perform_call, perform_calls, perform_calls-failures,
  perform_calls-settled,
}

abbrev error_event : Fields
error_event =
    field (codes "type") (str (codes "error"))
      (field (codes "message") (str (codes "overloaded")) end)

abbrev calls : List SocketCall
calls = observes error_event ∷ completes ∷ []

abbrev more : List SocketCall
more = completes ∷ fails (codes "late") (codes "late") ∷ []

perform_calls-failures_example :
    failures
      (perform_calls
        (λ v. [])
        (codes "resp_shim_1")
        calls
        (new_ws_relay (codes "gpt") (staying []))).client.frames
    ≤ 1
unfolding failures
perform_calls-failures_example =
    perform_calls-failures (λ v. []) (codes "resp_shim_1") (codes "gpt") (staying []) calls refl

perform_calls-settled_example :
    (perform_calls
      (λ v. [])
      (codes "resp_shim_1")
      more
      (perform_calls
        (λ v. [])
        (codes "resp_shim_1")
        calls
        (new_ws_relay (codes "gpt") (staying [])))).client
    ≡ (perform_calls
        (λ v. [])
        (codes "resp_shim_1")
        calls
        (new_ws_relay (codes "gpt") (staying []))).client
unfolding failures perform_calls perform_call observe_ws codex_maps_ws_error ws_complete emit_failed
    write_all has_type text_field find text_eq mem error_body event_value ws_error_code_message
perform_calls-settled_example =
    perform_calls-settled (λ v. []) (codes "resp_shim_1") (codes "gpt") (staying []) calls more refl
      refl

one_failure :
    failures
      (perform_calls
        (λ v. [])
        (codes "resp_shim_1")
        calls
        (new_ws_relay (codes "gpt") (staying []))).client.frames
    ≡ 1
unfolding failures is_failure perform_calls perform_call observe_ws codex_maps_ws_error ws_complete
    emit_failed write_all has_type text_field find text_eq mem error_body event_value
    ws_error_code_message
one_failure = refl
