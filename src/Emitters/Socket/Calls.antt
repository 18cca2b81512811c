-- ===== src/Emitters/Socket/Calls.antt =====
-- Any sequence of calls on the relay of a WebSocket.
use codex_shim.Prelude.{
  ◌≤◌, ◌≡◌, refl, sym, ◌∙◌, inl, inr, true, false, not, ◌&&◌, List, [], ◌∷◌, Text, codes, arith,
  Bool-cases, on_true, on_false,
}
use codex_shim.Json.{Json, obj, Fields}
use codex_shim.Pipeline.Items.{has_type}
use codex_shim.StreamGuard.{Reply}
use codex_shim.Emitters.{Client, type_in}
use codex_shim.Emitters.Socket.{
  WsRelay, new_ws_relay, codex_maps_ws_error, ws_terminal, observe_ws, ws_complete, ws_fail,
}
use codex_shim.Emitters.Socket.Once.{
  failures, IsOnce, one_at_most, observe_ws-IsOnce, ws_complete-IsOnce, ws_fail-IsOnce,
}

-- What calls of the relay's methods can do.
pub data SocketCall : Type 0 where
  observes : (payload : Fields) → SocketCall
  completes : SocketCall
  fails : (message code : Text) → SocketCall

-- The turn is over, and its client as it was.
record IsSettled (client : Client) (s : WsRelay) : Type 0 where
  saw : s.saw_terminal ≡ true
  emitted_one : s.already_emitted ≡ true
  same : s.client ≡ client

observe_ws-IsSettled :
    (payload : Json) (client : Client) (s : WsRelay)
    → IsSettled client s
    → IsSettled client (observe_ws payload s)
unfolding observe_ws
observe_ws-IsSettled payload client s w =
    elim (Bool-cases (has_type (codes "error") payload && not (codex_maps_ws_error payload))) [
      | inl unmapped ↦
          on_true (IsSettled client) unmapped _ _
            (record { saw = w.saw; emitted_one = w.emitted_one; same = w.same })
      | inr other ↦
          on_false (IsSettled client) other _ _ (elim (Bool-cases (type_in ws_terminal payload)) [
            | inl terminal ↦
                on_true (IsSettled client) terminal _ _
                  (record { saw = refl; emitted_one = refl; same = w.same })
            | inr no_terminal ↦
                on_false (IsSettled client) no_terminal _ _
                  (record { saw = w.saw; emitted_one = w.emitted_one; same = w.same })
          ])
    ]

module _ (py_str : Json → Text) (fresh_id : Text) where
  unfoldable pub perform_call : SocketCall → WsRelay → WsRelay
  unfolding observe_ws ws_complete ws_fail
  perform_call (observes payload) s = observe_ws (obj payload) s
  perform_call completes s = (ws_complete py_str fresh_id s false).0
  perform_call (fails message code) s = (ws_fail fresh_id s message code).0

  unfoldable pub perform_calls : List SocketCall → WsRelay → WsRelay
  unfolding perform_call
  perform_calls [] s = s
  perform_calls (call ∷ calls) s = perform_calls calls (perform_call call s)

  perform_call-IsOnce : (call : SocketCall) (s : WsRelay) → IsOnce s → IsOnce (perform_call call s)
  unfolding perform_call
  perform_call-IsOnce (observes payload) s w = observe_ws-IsOnce (obj payload) s w
  perform_call-IsOnce completes s w = ws_complete-IsOnce py_str fresh_id s false w
  perform_call-IsOnce (fails message code) s w = ws_fail-IsOnce py_str fresh_id s message code w

  perform_calls-IsOnce :
      (calls : List SocketCall) (s : WsRelay) → IsOnce s → IsOnce (perform_calls calls s)
  unfolding perform_calls
  perform_calls-IsOnce [] s w = w
  perform_calls-IsOnce (call ∷ calls) s w =
      perform_calls-IsOnce calls _ (perform_call-IsOnce call s w)

  perform_call-IsSettled :
      (call : SocketCall) (client : Client) (s : WsRelay)
      → IsSettled client s
      → IsSettled client (perform_call call s)
  unfolding perform_call ws_complete ws_fail
  perform_call-IsSettled (observes payload) client s w =
      observe_ws-IsSettled (obj payload) client s w
  perform_call-IsSettled completes client s w =
      on_true (λ (r : WsRelay × Reply). IsSettled client r.0) w.saw _ _ w
  perform_call-IsSettled (fails message code) client s w =
      on_true (λ (r : WsRelay × Reply). IsSettled client r.0) w.emitted_one _ _ w

  perform_calls-IsSettled :
      (calls : List SocketCall) (client : Client) (s : WsRelay)
      → IsSettled client s
      → IsSettled client (perform_calls calls s)
  unfolding perform_calls
  perform_calls-IsSettled [] client s w = w
  perform_calls-IsSettled (call ∷ calls) client s w =
      perform_calls-IsSettled calls client _ (perform_call-IsSettled call client s w)

new_ws_relay-IsOnce :
    (model : Text) (client : Client)
    → failures client.frames ≡ 0
    → IsOnce (new_ws_relay model client)
new_ws_relay-IsOnce model client e = record { bound = omega (arith, e); marked = refl }

-- From a new relay on, whatever events it observes and however often it is completed and failed, the
-- client gets at most one `response.failed` of the relay, also if it goes away in between.
pub perform_calls-failures :
    (py_str : Json → Text) (fresh_id model : Text) (client : Client) (calls : List SocketCall)
    → failures client.frames ≡ 0
    → failures (perform_calls py_str fresh_id calls (new_ws_relay model client)).client.frames ≤ 1
perform_calls-failures py_str fresh_id model client calls e =
    let last = perform_calls py_str fresh_id calls (new_ws_relay model client) in
    let w =
      perform_calls-IsOnce py_str fresh_id calls (new_ws_relay model client)
        (new_ws_relay-IsOnce model client e) in
    omega (arith, w.bound, one_at_most last.saw_terminal)

-- Once the relay knows of a terminal event, one that the upstream sent or one of its own, it writes
-- nothing more, whatever follows.
pub perform_calls-settled :
    (py_str : Json → Text) (fresh_id model : Text) (client : Client) (calls more : List SocketCall)
    → failures client.frames ≡ 0
    → (perform_calls py_str fresh_id calls (new_ws_relay model client)).saw_terminal ≡ true
    → (perform_calls py_str fresh_id more
        (perform_calls py_str fresh_id calls (new_ws_relay model client))).client
      ≡ (perform_calls py_str fresh_id calls (new_ws_relay model client)).client
perform_calls-settled py_str fresh_id model client calls more e saw =
    let s = perform_calls py_str fresh_id calls (new_ws_relay model client) in
    let once =
      perform_calls-IsOnce py_str fresh_id calls (new_ws_relay model client)
        (new_ws_relay-IsOnce model client e) in
    (perform_calls-IsSettled py_str fresh_id more s.client s
      (record { saw = saw; emitted_one = sym once.marked ∙ saw; same = refl })).same
