-- ===== src/Emitters/Socket/Once.antt =====
-- A WebSocket client gets at most one `response.failed` of the relay.
use codex_shim.Prelude.{
  ℕ, ◌+◌, ◌≤◌, ◌≡◌, refl, ap, ◌∙◌, inl, inr, Bool, true, false, not, ◌&&◌, List, [], ◌∷◌, ◌++◌,
  Text, codes, text_eq, mem, arith, Bool-cases, Option-cases, on_true, on_false,
}
use codex_shim.Json.{Json, find}
use codex_shim.Pipeline.Items.{text_field, has_type}
use codex_shim.StreamGuard.{Reply}
use codex_shim.Emitters.{Frame, sse, Client, waits, is_gone, write_all, type_in}
use codex_shim.Emitters.Terminals.{one_if}
use codex_shim.Emitters.Socket.{
  WsRelay, codex_maps_ws_error, ws_terminal, observe_ws, failed_event, finish_ws, error_frames,
  emit_failed, ws_error_code_message, ws_complete, ws_fail,
}

unfoldable pub is_failure : Frame → Bool
unfolding text_field find text_eq mem
is_failure (sse event) = type_in (codes "response.failed" ∷ []) event
is_failure _ = false

-- How many `response.failed` were written.
unfoldable pub failures : List Frame → ℕ
unfolding is_failure
failures [] = 0
failures (f ∷ frames) = one_if (is_failure f) + failures frames

failures-append : (a b : List Frame) → failures (a ++ b) ≡ failures a + failures b
unfolding failures
failures-append [] b = omega arith
failures-append (f ∷ a) b = omega (arith, failures-append a b)

-- The writes counted one more failure if they were all made, else none.
abbrev WritesOne : Client → Client × Bool → Type 0
WritesOne c written = failures written.0.frames ≡ failures c.frames + one_if written.1

write_failure : (f : Frame) (c : Client) → is_failure f ≡ true → WritesOne c (write_all (f ∷ []) c)
unfolding write_all failures
write_failure f c is = elim (Bool-cases (is_gone c.patience)) [
  | inl gone ↦ on_true (WritesOne c) gone _ _ (omega arith)
  | inr there ↦
      on_false (WritesOne c) there _ _
        (failures-append c.frames (f ∷ []) ∙ omega (arith, ap one_if is))
]

write_after :
    (e f : Frame) (c : Client)
    → is_failure e ≡ false
    → is_failure f ≡ true
    → WritesOne c (write_all (e ∷ f ∷ []) c)
unfolding write_all failures
write_after e f c other is =
    let next : Client = record { frames = c.frames ++ e ∷ []; patience = waits c.patience } in
    elim (Bool-cases (is_gone c.patience)) [
      | inl gone ↦ on_true (WritesOne c) gone _ _ (omega arith)
      | inr there ↦ on_false (WritesOne c) there _ _ (
          write_failure f next is
          ∙ omega (arith, failures-append c.frames (e ∷ []), ap one_if other))
    ]

-- A failure was written only if the relay knows of a terminal, and then it is marked as emitted.
pub record IsOnce (s : WsRelay) : Type 0 where
  pub bound : failures s.client.frames ≤ one_if s.saw_terminal
  pub marked : s.saw_terminal ≡ s.already_emitted

module _ (fresh_id : Text) where
  failed_event-is_failure :
      (s : WsRelay) (code message : Text)
      → is_failure (sse (failed_event fresh_id s code message)) ≡ true
  unfolding is_failure text_field find text_eq mem
  failed_event-is_failure s code message = refl

  emit_failed-writes :
      (s : WsRelay) (code message : Text) (error_frame : Bool)
      → WritesOne s.client (
          write_all
            (error_frames error_frame code message
              ++ sse (failed_event fresh_id s code message) ∷ [])
            s.client)
  emit_failed-writes s code message true =
      write_after _ _ s.client (unfold is_failure text_field find text_eq mem in refl)
        (failed_event-is_failure s code message)
  emit_failed-writes s code message false =
      write_failure _ s.client (failed_event-is_failure s code message)

  finish_ws-IsOnce :
      (s : WsRelay) (event : Json) (written : Client × Bool)
      → s.saw_terminal ≡ false
      → IsOnce s
      → WritesOne s.client written
      → IsOnce (finish_ws s event written).0
  finish_ws-IsOnce s event (client, true) open_turn w one = record {
    bound = omega (arith, one, w.bound, ap one_if open_turn);
    marked = refl;
  }
  finish_ws-IsOnce s event (client, false) open_turn w one = record {
    bound = omega (arith, one, w.bound);
    marked = w.marked;
  }

  emit_failed-IsOnce :
      (s : WsRelay) (code message : Text) (error_frame : Bool)
      → s.saw_terminal ≡ false
      → IsOnce s
      → IsOnce (emit_failed fresh_id s code message error_frame).0
  unfolding emit_failed
  emit_failed-IsOnce s code message error_frame open_turn w =
      finish_ws-IsOnce s _ _ open_turn w (emit_failed-writes s code message error_frame)

pub one_at_most : (b : Bool) → one_if b ≤ 1
one_at_most true = omega arith
one_at_most false = omega arith

pub observe_ws-IsOnce : (payload : Json) (s : WsRelay) → IsOnce s → IsOnce (observe_ws payload s)
unfolding observe_ws
observe_ws-IsOnce payload s w =
    let held : IsOnce s = w in
    elim (Bool-cases (has_type (codes "error") payload && not (codex_maps_ws_error payload))) [
      | inl unmapped ↦ on_true IsOnce unmapped _ _ (record { bound = w.bound; marked = w.marked })
      | inr other ↦ on_false IsOnce other _ _ (elim (Bool-cases (type_in ws_terminal payload)) [
        | inl terminal ↦
            on_true IsOnce terminal _ _
              (record { bound = omega (arith, w.bound, one_at_most s.saw_terminal); marked = refl })
        | inr no_terminal ↦
            on_false IsOnce no_terminal _ _ (record { bound = w.bound; marked = w.marked })
      ])
    ]

module _ (py_str : Json → Text) (fresh_id : Text) where
  pub ws_complete-IsOnce :
      (s : WsRelay) (saw_done : Bool) → IsOnce s → IsOnce (ws_complete py_str fresh_id s saw_done).0
  unfolding ws_complete
  ws_complete-IsOnce s saw_done w =
      let Good = λ (r : WsRelay × Reply). IsOnce r.0 in
      elim (Bool-cases s.saw_terminal) [
        | inl saw ↦ on_true Good saw _ _ w
        | inr open_turn ↦ on_false Good open_turn _ _ (elim (Option-cases s.upstream_error) [
          | inl nothing ↦ rw nothing w
          | inr (error, held) ↦
              let named = ws_error_code_message py_str error in
              rw held (emit_failed-IsOnce fresh_id s named.0 named.1 false open_turn w)
        ])
      ]

  pub ws_fail-IsOnce :
      (s : WsRelay) (message code : Text) → IsOnce s → IsOnce (ws_fail fresh_id s message code).0
  unfolding ws_fail
  ws_fail-IsOnce s message code w =
      let Good = λ (r : WsRelay × Reply). IsOnce r.0 in
      elim (Bool-cases s.already_emitted) [
        | inl emitted_one ↦ on_true Good emitted_one _ _ w
        | inr open_turn ↦
            on_false Good open_turn _ _
              (emit_failed-IsOnce fresh_id s code message true (w.marked ∙ open_turn) w)
      ]
