-- ===== src/MessageStream/Wire.antt =====
-- What an Anthropic message stream reads and sends: a chunk of a chat completion, and the frames of its
-- events.
use codex_shim.Prelude.{
  ℕ, Option, none, some, List, [], ◌∷◌, Text, codes, mem, text_eq, if◌then◌else◌,
}
use codex_shim.Json.{
  Json, null, int, str, obj, arr, pos, Items, nil, cons, Fields, field, end, find, truthy,
}
use codex_shim.Pipeline.Ids.{text_of}
use codex_shim.Emitters.{Frame, named, typed}
use codex_shim.MessageStream.{
  Block, text_block, thinking_block, tool_block, Delta, text_delta, thinking_delta,
  input_json_delta, Event, message_start, block_start, block_delta, block_stop, message_delta,
  message_stop, error_event, Call, Chunk,
}

infixl 15 ◌>>=◌
abbrev ◌>>=◌ {ℓ κ} : {A : Type ℓ} {B : Type κ} → Option A → (A → Option B) → Option B
none >>= read = none
some a >>= read = read a

-- _chat_finish_to_anthropic_stop
unfoldable pub chat_finish_to_anthropic_stop : Text → Text
chat_finish_to_anthropic_stop reason =
    if mem reason (codes "tool_calls" ∷ codes "function_call" ∷ [])
    then codes "tool_use"
    else if text_eq reason (codes "length")
    then codes "max_tokens"
    else if text_eq reason (codes "content_filter")
    then codes "refusal"
    else codes "end_turn"

-- x or y
abbrev or_else : Option Json → Option Json → Option Json
or_else none y = y
or_else (some v) y = if truthy v then some v else y

-- `value or {}` whose fields are read: none where the value has no `get`
abbrev fields_or_empty : Option Json → Option Fields
fields_or_empty none = some end
fields_or_empty (some (obj d)) = some d
fields_or_empty (some v) = if truthy v then none else some end

-- (value or [{}])[0]
abbrev first_choice : Option Json → Option Fields
first_choice (some (arr (cons (obj choice) more))) = some choice
first_choice (some (arr (cons v more))) = none
first_choice value = fields_or_empty value

-- the new stop reason, if any; none where the value cannot be in a set
abbrev stop_of : Option Json → Option (Option Text)
stop_of (some (str [])) = some none
stop_of (some (str (c ∷ t))) = some (some (chat_finish_to_anthropic_stop (c ∷ t)))
stop_of (some (arr (cons v more))) = none
stop_of (some (obj (field k v d))) = none
stop_of (some v) = some (if truthy v then some (codes "end_turn") else none)
stop_of none = some none

-- a text that is appended, empty where the value is falsy; none where it is no text
abbrev appended : Option Json → Option Text
appended none = some []
appended (some (str t)) = some t
appended (some v) = if truthy v then none else some []

abbrev id_or_empty : Option Json → Json
id_or_empty none = str []
id_or_empty (some v) = v

-- call.get("index", 0), for the indices that are no less than 0
abbrev index_of : Option Json → Option ℕ
index_of none = some 0
index_of (some (int (pos n))) = some n
index_of _ = none

-- A call, none where reading it raises or its index is negative or no integer.
unfoldable pub decode_call : Json → Option Call
unfolding find
decode_call (obj call) = do
  index ← index_of (find (codes "index") call)
  fn ← fields_or_empty (find (codes "function") call)
  name ← appended (find (codes "name") fn)
  arguments ← appended (find (codes "arguments") fn)
  some (record {
    index = index;
    id = id_or_empty (find (codes "id") call);
    name = name;
    arguments = arguments;
  })
decode_call _ = none

unfoldable pub decode_calls : Items → Option (List Call)
unfolding decode_call
decode_calls nil = some []
decode_calls (cons call calls) = do
  first ← decode_call call
  more ← decode_calls calls
  some (first ∷ more)

abbrev calls_of : Option Json → Option (List Call)
calls_of none = some []
calls_of (some (arr calls)) = decode_calls calls
calls_of (some v) = if truthy v then none else some []

abbrev usage_of : Option Json → Option Fields
usage_of (some (obj usage)) = some usage
usage_of _ = none

module _ (py_str : Json → Text) where
  -- str(value), if it is truthy
  abbrev text_if : Option Json → Option Text
  text_if none = none
  text_if (some v) = if truthy v then some (text_of py_str v) else none

  -- What `write_chat_delta` reads of a chunk; none where that raises, or where a call is not read.
  unfoldable pub decode_chunk : Json → Option Chunk
  unfolding find decode_calls chat_finish_to_anthropic_stop
  decode_chunk (obj chunk) = do
    choice ← first_choice (find (codes "choices") chunk)
    stop ← stop_of (find (codes "finish_reason") choice)
    delta ← fields_or_empty (find (codes "delta") choice)
    calls ← calls_of (find (codes "tool_calls") delta)
    some (record {
      usage = usage_of (find (codes "usage") chunk);
      stop_reason = stop;
      reasoning =
          text_if
            (or_else (find (codes "reasoning_content") delta) (find (codes "reasoning") delta));
      content = text_if (find (codes "content") delta);
      calls = calls;
    })
  decode_chunk _ = none

abbrev block_json : Block → Json
block_json text_block = typed (codes "text") (field (codes "text") (str []) end)
block_json thinking_block = typed (codes "thinking") (field (codes "thinking") (str []) end)
block_json (tool_block id name) =
    typed (codes "tool_use") (
      field (codes "id") id (field (codes "name") (str name) (field (codes "input") (obj end) end)))

abbrev delta_json : Delta → Json
delta_json (text_delta t) = typed (codes "text_delta") (field (codes "text") (str t) end)
delta_json (thinking_delta t) =
    typed (codes "thinking_delta") (field (codes "thinking") (str t) end)
delta_json (input_json_delta t) =
    typed (codes "input_json_delta") (field (codes "partial_json") (str t) end)

abbrev named_typed : Text → Fields → Frame
named_typed event d = named event (typed event d)

abbrev at_index : ℕ → Fields → Fields
at_index i d = field (codes "index") (int (pos i)) d

-- _responses_usage_to_anthropic_usage(...) or {"output_tokens": 0}, of counts that are never empty
abbrev usage_json : Option Fields → Json
usage_json none = obj (field (codes "output_tokens") (int (pos 0)) end)
usage_json (some usage) = obj usage

abbrev message_json : (message_id model : Text) → Fields
message_json message_id model = field (codes "id") (str message_id) (
    field (codes "type") (str (codes "message")) (
      field (codes "role") (str (codes "assistant")) (
        field (codes "model") (str model) (
          field (codes "content") (arr nil) (
            field (codes "stop_reason") null (
              field (codes "stop_sequence") null (
                field (codes "usage")
                  (obj (
                    field (codes "input_tokens") (int (pos 0))
                      (field (codes "output_tokens") (int (pos 0)) end)))
                  end)))))))

-- The frame that `_write_anthropic_sse` is called with.
unfoldable pub event_frame : Event → Frame
event_frame (message_start message_id model) =
    named_typed (codes "message_start")
      (field (codes "message") (obj (message_json message_id model)) end)
event_frame (block_start i block) =
    named_typed (codes "content_block_start")
      (at_index i (field (codes "content_block") (block_json block) end))
event_frame (block_delta i delta) =
    named_typed (codes "content_block_delta")
      (at_index i (field (codes "delta") (delta_json delta) end))
event_frame (block_stop i) = named_typed (codes "content_block_stop") (at_index i end)
event_frame (message_delta reason usage) =
    let stop = field (codes "stop_reason") (str reason) (field (codes "stop_sequence") null end) in
    named_typed (codes "message_delta")
      (field (codes "delta") (obj stop) (field (codes "usage") (usage_json usage) end))
event_frame message_stop = named_typed (codes "message_stop") end
event_frame (error_event code message) =
    let error = field (codes "type") (str code) (field (codes "message") (str message) end) in
    named_typed (codes "error") (field (codes "error") (obj error) end)
