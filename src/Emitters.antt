-- ===== src/Emitters.antt =====
-- The relays of native streams in codex_shim/net/emitters.py, over a client that may go away. The id
-- that is made of the clock is a parameter.
pub mod Terminals
pub mod Relay
pub mod Socket
use codex_shim.Prelude.{
  ℕ, zero, suc, ◌-◌, Bool, true, false, not, ◌&&◌, ◌||◌, Option, none, some, List, [], ◌∷◌, ◌++◌,
  Text, codes, text_eq, ltb, leb, mem, if◌then◌else◌,
}
use codex_shim.Json.{
  Json, null, bool, int, str, arr, obj, ℤ, pos, negsuc, nil, Fields, field, end, find, store,
  truthy,
}
use codex_shim.Pipeline.Items.{field_of, text_field, is_text, has_type}
use codex_shim.Pipeline.Ids.{text_of}
use codex_shim.StreamGuard.{Reply, emitted, raised_disconnect, Emitter}

-- What is written: a `data:` event, an event with a name, a line that is passed on, or
-- the end marker.
pub data Frame : Type 0 where
  sse : Json → Frame
  named : Text → Json → Frame
  raw : Text → Frame
  done : Frame

-- The client: what it was sent, and after how many more writes it is gone, if at all.
pub record Client : Type 0 where
  pub frames : List Frame
  pub patience : Option ℕ

abbrev pub waits : Option ℕ → Option ℕ
waits none = none
waits (some n) = some (n - 1)

abbrev pub is_gone : Option ℕ → Bool
is_gone (some zero) = true
is_gone patience = false

-- The writes of one call, in order, up to the one that raises `ClientDisconnected`; whether all
-- were made.
unfoldable pub write_all : List Frame → Client → Client × Bool
write_all [] c = (c, true)
write_all (f ∷ frames) c =
    let later =
      write_all frames (record { frames = c.frames ++ f ∷ []; patience = waits c.patience }) in
    if is_gone c.patience then (c, false) else later

abbrev pub responses_terminal : List Text
responses_terminal =
    codes "response.completed" ∷ codes "response.failed" ∷ codes "response.incomplete" ∷ []

abbrev pub anthropic_terminal : List Text
anthropic_terminal = codes "message_stop" ∷ codes "error" ∷ []

-- event_type in a set of names
abbrev pub type_in : List Text → Json → Bool
type_in names event = elim (text_field (codes "type") event) [ none ↦ false | some t ↦ mem t names ]

abbrev pub or_event : Option Text → Text → Text
or_event (some (c ∷ t)) default = c ∷ t
or_event _ default = default

-- base.setdefault(k, v)
abbrev pub set_default : Text → Json → Fields → Fields
set_default k v base = elim (find k base) [ none ↦ store k v base | some w ↦ base ]

-- dict(last) if last else {}
abbrev pub base_of : Option Fields → Fields
base_of none = end
base_of (some d) = d

-- _synthetic_responses_object
unfoldable pub synthetic_responses_object : Text → Option Fields → Text → Text → Fields
unfolding find store text_eq
synthetic_responses_object fresh_id last model status =
    let with_id = set_default (codes "id") (str fresh_id) (base_of last) in
    let with_object = set_default (codes "object") (str (codes "response")) with_id in
    let with_model = set_default (codes "model") (str model) with_object in
    let with_output = set_default (codes "output") (arr nil) with_model in
    store (codes "status") (str status) with_output

abbrev pub typed : Text → Fields → Json
typed t d = obj (field (codes "type") (str t) d)

-- {"type": t, "response": object}
abbrev pub response_event : Text → Fields → Json
response_event t object = typed t (field (codes "response") (obj object) end)

abbrev pub code_message : Text → Text → Fields
code_message code message =
    field (codes "code") (str code) (field (codes "message") (str message) end)

-- failed["error"] = {"code": code, "message": message}
unfoldable pub failed_object : Text → Option Fields → Text → Text → Text → Fields
unfolding synthetic_responses_object store
failed_object fresh_id last model message code =
    store (codes "error") (obj (code_message code message))
      (synthetic_responses_object fresh_id last model (codes "failed"))

-- payload.get("response"), if it is an object, replaces the last one
abbrev pub next_response : Option Json → Option Fields → Option Fields
next_response (some (obj d)) last = some d
next_response _ last = last

-- ChatgptRelayEmitter
pub record ChatgptRelay : Type 0 where
  pub model : Text
  pub saw_terminal : Bool
  pub last_response : Option Fields
  pub already_emitted : Bool
  pub terminal_event : Option Text
  pub done_written : Bool
  pub client : Client

abbrev pub new_chatgpt_relay : Text → Client → ChatgptRelay
new_chatgpt_relay model client = record {
  model = model;
  saw_terminal = false;
  last_response = none;
  already_emitted = false;
  terminal_event = none;
  done_written = false;
  client = client;
}

unfoldable pub observe : Json → ChatgptRelay → ChatgptRelay
unfolding text_field find text_eq mem
observe payload s =
    let noted = record s {
      last_response = next_response (field_of (codes "response") payload) s.last_response;
    } in
    if type_in responses_terminal payload
    then record noted { saw_terminal = true; terminal_event = text_field (codes "type") payload }
    else noted

-- _write_done, as the last of the writes
abbrev pub done_frames : Bool → List Frame
done_frames true = []
done_frames false = done ∷ []

-- The writes of a call; the other fields change only if all were made.
abbrev pub finish_relay :
    ChatgptRelay → (ChatgptRelay → ChatgptRelay) → Text → Client × Bool → ChatgptRelay × Reply
finish_relay s change event (client, false) = (record s { client = client }, raised_disconnect)
finish_relay s change event (client, true) = (
  change (record s { client = client; done_written = true; already_emitted = true }),
  emitted event,
)

unfoldable pub chatgpt_complete : Text → ChatgptRelay → Bool → ChatgptRelay × Reply
unfolding write_all synthetic_responses_object
chatgpt_complete fresh_id s saw_done =
    let incomplete = codes "response.incomplete" in
    let object = synthetic_responses_object fresh_id s.last_response s.model (codes "incomplete") in
    let frames = sse (response_event incomplete object) ∷ done_frames s.done_written in
    if s.saw_terminal
    then finish_relay s (λ t. t) (or_event s.terminal_event (codes "response.completed"))
        (write_all (done_frames s.done_written) s.client)
    else finish_relay s (λ t. record t { terminal_event = some incomplete }) incomplete
        (write_all frames s.client)

-- The writes of `fail` where no terminal event was seen.
abbrev pub failure_frames : Text → ChatgptRelay → (message code : Text) → List Frame
failure_frames fresh_id s message code =
    let object = failed_object fresh_id s.last_response s.model message code in
    sse (typed (codes "error") (code_message code message))
    ∷ sse (response_event (codes "response.failed") object)
    ∷ done_frames s.done_written

unfoldable pub chatgpt_fail : Text → ChatgptRelay → (message code : Text) → ChatgptRelay × Reply
unfolding write_all failed_object
chatgpt_fail fresh_id s message code =
    let failed = codes "response.failed" in
    if s.saw_terminal
    then finish_relay s (λ t. t) (or_event s.terminal_event failed)
        (write_all (done_frames s.done_written) s.client)
    else finish_relay s (λ t. record t { saw_terminal = true; terminal_event = some failed }) failed
        (write_all (failure_frames fresh_id s message code) s.client)

unfoldable pub chatgpt_emitter : Text → Emitter ChatgptRelay
unfolding chatgpt_complete chatgpt_fail
chatgpt_emitter fresh_id = record {
  already_emitted = λ (s : ChatgptRelay). s.already_emitted;
  complete = chatgpt_complete fresh_id;
  fail = chatgpt_fail fresh_id;
}

-- AnthropicRelayEmitter
pub record AnthropicRelay : Type 0 where
  pub saw_terminal : Bool
  pub already_emitted : Bool
  pub terminal_event : Option Text
  pub client : Client

unfoldable pub observe_anthropic : Json → AnthropicRelay → AnthropicRelay
unfolding text_field find text_eq mem
observe_anthropic event s =
    if type_in anthropic_terminal event
    then record s { saw_terminal = true; terminal_event = text_field (codes "type") event }
    else s

abbrev pub message_stop : Frame
message_stop = named (codes "message_stop") (typed (codes "message_stop") end)

abbrev pub finish_anthropic :
    AnthropicRelay
    → (AnthropicRelay → AnthropicRelay)
    → Text
    → Client × Bool
    → AnthropicRelay × Reply
finish_anthropic s change event (client, false) = (record s { client = client }, raised_disconnect)
finish_anthropic s change event (client, true) = (
  change (record s { client = client; already_emitted = true; terminal_event = some event }),
  emitted event,
)

unfoldable pub anthropic_complete : AnthropicRelay → Bool → AnthropicRelay × Reply
unfolding write_all
anthropic_complete s saw_done =
    let stop = codes "message_stop" in
    if s.saw_terminal
    then (record s { already_emitted = true }, emitted (or_event s.terminal_event stop))
    else finish_anthropic s (λ t. t) stop (write_all (message_stop ∷ []) s.client)

unfoldable pub anthropic_fail : AnthropicRelay → (message code : Text) → AnthropicRelay × Reply
unfolding write_all
anthropic_fail s message code =
    let detail = field (codes "type") (str code) (field (codes "message") (str message) end) in
    let failure =
      named (codes "error") (typed (codes "error") (field (codes "error") (obj detail) end)) in
    if s.already_emitted
    then (s, emitted (or_event s.terminal_event (codes "error")))
    else finish_anthropic s (λ t. record t { saw_terminal = true }) (codes "error")
        (write_all (failure ∷ message_stop ∷ []) s.client)

unfoldable pub anthropic_emitter : Emitter AnthropicRelay
unfolding anthropic_complete anthropic_fail
anthropic_emitter = record {
  already_emitted = λ (s : AnthropicRelay). s.already_emitted;
  complete = anthropic_complete;
  fail = anthropic_fail;
}
