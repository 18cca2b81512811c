-- ===== src/Emitters/Socket.antt =====
-- `RawChatEmitter` and `WsRelayEmitter` of codex_shim/net/emitters.py, over a client that may go away.
pub mod Once
pub mod Calls
use codex_shim.Prelude.{
  ℕ, Bool, true, false, not, ◌&&◌, ◌||◌, Option, none, some, List, [], ◌∷◌, ◌++◌, Text, codes,
  text_eq, ltb, leb, mem, if◌then◌else◌,
}
use codex_shim.Json.{
  Json, null, bool, int, str, arr, obj, ℤ, pos, negsuc, Fields, field, end, find, store, truthy,
}
use codex_shim.Pipeline.Items.{field_of, text_field, is_text, has_type}
use codex_shim.Pipeline.Ids.{text_of}
use codex_shim.StreamGuard.{Reply, emitted, raised_disconnect, Emitter}
use codex_shim.Emitters.{
  Frame, sse, done, Client, write_all, responses_terminal, type_in, or_event, typed, response_event,
  code_message, failed_object, next_response,
}

pub record RawChat : Type 0 where
  pub already_emitted : Bool
  pub terminal_event : Option Text
  pub client : Client

abbrev pub finish_raw_chat : RawChat → Text → Client × Bool → RawChat × Reply
finish_raw_chat s event (client, false) = (record s { client = client }, raised_disconnect)
finish_raw_chat s event (client, true) =
    (record { already_emitted = true; terminal_event = some event; client = client }, emitted event)

unfoldable pub raw_chat_complete : RawChat → Bool → RawChat × Reply
unfolding write_all
raw_chat_complete s saw_done =
    if s.already_emitted
    then (s, emitted (or_event s.terminal_event (codes "done")))
    else finish_raw_chat s (codes "done") (write_all (done ∷ []) s.client)

unfoldable pub raw_chat_fail : RawChat → (message code : Text) → RawChat × Reply
unfolding write_all
raw_chat_fail s message code =
    let failure = obj (field (codes "error") (obj (code_message code message)) end) in
    if s.already_emitted
    then (s, emitted (or_event s.terminal_event (codes "error")))
    else finish_raw_chat s (codes "error") (write_all (sse failure ∷ done ∷ []) s.client)

unfoldable pub raw_chat_emitter : Emitter RawChat
unfolding raw_chat_complete raw_chat_fail
raw_chat_emitter = record {
  already_emitted = λ (s : RawChat). s.already_emitted;
  complete = raw_chat_complete;
  fail = raw_chat_fail;
}

-- event.get(name), with None for a missing name
unfoldable pub event_value : Text → Json → Json
unfolding find
event_value name event = elim (field_of name event) [ none ↦ null | some v ↦ v ]

-- _error_body
unfoldable pub error_body : Json → Json
unfolding event_value
error_body event = elim (event_value (codes "error") event) [ obj d ↦ obj d | _ ↦ obj end ]

-- a or b
abbrev pub or_else : Json → Json → Json
or_else a b = if truthy a then a else b

-- isinstance(status, int) and not isinstance(status, bool) and not 200 <= status < 300
abbrev pub is_failing_status : Json → Bool
is_failing_status (int (pos n)) = not (leb 200 n && ltb n 300)
is_failing_status (int (negsuc n)) = true
is_failing_status _ = false

-- event.get("status", event.get("status_code"))
abbrev pub ws_status : Json → Json
ws_status event = elim (field_of (codes "status") event) [
  | some v ↦ v
  | none ↦ event_value (codes "status_code") event
]

unfoldable pub codex_maps_ws_error : Json → Bool
unfolding has_type event_value error_body find text_eq text_field
codex_maps_ws_error event =
    has_type (codes "error") event
    && (is_text (codes "websocket_connection_limit_reached")
          (text_field (codes "code") (error_body event))
        || is_failing_status (ws_status event))

unfoldable pub ws_error_code_message : (Json → Text) → Json → Text × Text
unfolding event_value error_body
ws_error_code_message py_str event =
    let err = error_body event in
    let code = or_else (event_value (codes "code") err) (
      or_else (event_value (codes "type") err)
        (or_else (event_value (codes "code") event) (str (codes "upstream_error")))) in
    let message = or_else (event_value (codes "message") err) (
      or_else (event_value (codes "message") event)
        (or_else (event_value (codes "detail") event) (str []))) in
    (text_of py_str code, text_of py_str message)

pub record WsRelay : Type 0 where
  pub model : Text
  pub saw_terminal : Bool
  pub last_response : Option Fields
  pub already_emitted : Bool
  pub terminal_event : Option Text
  pub last_emitted : Option Json
  pub upstream_error : Option Json
  pub client : Client

abbrev pub new_ws_relay : Text → Client → WsRelay
new_ws_relay model client = record {
  model = model;
  saw_terminal = false;
  last_response = none;
  already_emitted = false;
  terminal_event = none;
  last_emitted = none;
  upstream_error = none;
  client = client;
}

abbrev pub ws_terminal : List Text
ws_terminal = responses_terminal ++ codes "error" ∷ []

unfoldable pub observe_ws : Json → WsRelay → WsRelay
unfolding has_type codex_maps_ws_error mem text_eq text_field find
observe_ws payload s =
    let last = next_response (field_of (codes "response") payload) s.last_response in
    let noted = record s { last_response = last } in
    if has_type (codes "error") payload && not (codex_maps_ws_error payload)
    then record noted { upstream_error = some payload }
    else if type_in ws_terminal payload
    then record noted {
      saw_terminal = true;
      terminal_event = text_field (codes "type") payload;
      already_emitted = true;
    }
    else noted

abbrev pub finish_ws : WsRelay → Json → Client × Bool → WsRelay × Reply
finish_ws s event (client, false) = (record s { client = client }, raised_disconnect)
finish_ws s event (client, true) = (
  record s {
    client = client;
    last_emitted = some event;
    already_emitted = true;
    saw_terminal = true;
    terminal_event = some (codes "response.failed");
  },
  emitted (codes "response.failed"),
)

abbrev pub error_frames : Bool → (code message : Text) → List Frame
error_frames true code message = sse (typed (codes "error") (code_message code message)) ∷ []
error_frames false code message = []

module _ (fresh_id : Text) where
  abbrev pub failed_event : WsRelay → (code message : Text) → Json
  failed_event s code message =
      response_event (codes "response.failed")
        (failed_object fresh_id s.last_response s.model message code)

  -- _emit_failed
  unfoldable pub emit_failed :
      WsRelay → (code message : Text) → (error_frame : Bool) → WsRelay × Reply
  unfolding failed_object write_all
  emit_failed s code message error_frame =
      let event = failed_event s code message in
      finish_ws s event
        (write_all (error_frames error_frame code message ++ sse event ∷ []) s.client)

  unfoldable pub ws_fail : WsRelay → (message code : Text) → WsRelay × Reply
  unfolding emit_failed
  ws_fail s message code =
      if s.already_emitted
      then (s, emitted (or_event s.terminal_event (codes "error")))
      else emit_failed s code message true

module _ (py_str : Json → Text) (fresh_id : Text) where
  unfoldable pub ws_complete : WsRelay → Bool → WsRelay × Reply
  unfolding emit_failed ws_error_code_message
  ws_complete s saw_done =
      let closed : WsRelay × Reply = elim s.upstream_error [
        | some error ↦
            let (code, message) = ws_error_code_message py_str error in
            emit_failed fresh_id s code message false
        | none ↦ (s, emitted (codes "unterminated"))
      ] in
      if s.saw_terminal
      then (s, emitted (or_event s.terminal_event (codes "response.completed")))
      else closed

  unfoldable pub ws_emitter : Emitter WsRelay
  unfolding ws_complete ws_fail
  ws_emitter = record {
    already_emitted = λ (s : WsRelay). s.already_emitted;
    complete = ws_complete;
    fail = ws_fail fresh_id;
  }
