-- ===== src/History.antt =====
-- `_responses_input_to_messages` of codex_shim/translate.py: the messages of a chat completion, the tool calls
-- that are pending, and the outputs that came before their calls.
pub mod Search
pub mod Items
pub mod Parts
pub mod Conversion
pub mod Kept
pub mod Calls
use codex_shim.Prelude.{
  ◌≡◌, Bool, true, false, Option, none, some, List, [], ◌∷◌, ◌++◌, Text, Text-Eq, codes, mem,
  is_empty, if◌then◌else◌,
}
use codex_shim.Prelude.Dict.{Dict, get, put, pop}
use codex_shim.Json.{Json, str, Fields, truthy}
use codex_shim.Pipeline.Ids.{text_of}

pub record ToolCall : Type 0 where
  pub id : Json
  pub name : Json
  pub arguments : Json

-- A message: one with a role and a content, an assistant's calls, the output of a tool, the result of
-- a tool search, the marker of reasoning, or one that an agent message became.
pub data Message : Type 0 where
  plain : (role content : Json) → Message
  calling : List ToolCall → Message
  tool_result : (call_id content : Json) → Message
  search_result : (call_id content : Json) → Message
  reasoning_only : (encrypted summary : Json) → Message
  agent : Json → Message

-- What the conversion asks of other code: `_responses_content_to_chat_content`,
-- `_computer_output_to_chat_content`, `_content_to_text`, `_has_visual_content` with
-- `_visual_feedback_chat_content`, `_agent_message_to_chat_message`, `upstream_chat_tool_name`,
-- `wrap_custom_tool_input`, `decode_shim_compaction_summary`, `flatten_tool_search_tools`, `json.dumps`, and
-- Python's `str` of a value that is no string and `str.lower`.
pub record Contents : Type 0 where
  pub chat_content : Json → Json
  pub computer_content : Json → Json
  pub content_text : Json → Text
  pub visual_feedback : (output call_id : Json) → Option Json
  pub agent_message : Json → Option Json
  pub chat_tool_name : (namespace name : Json) → Json
  pub wrap_input : Json → Json
  pub decode_summary : Json → Option Text
  pub flatten_tools : Json → Json
  pub dumps : Json → Text
  pub py_str : Json → Text
  pub lower : Text → Text

-- The lists and dictionaries of the function; `emitted` is its set of ids.
pub record History : Type 0 where
  pub messages : List Message
  pub pending : List ToolCall
  pub deferred : Dict Text (List Message)
  pub emitted : List Text

abbrev pub new_history : History
new_history = record { messages = []; pending = []; deferred = []; emitted = [] }

abbrev pub append : List Message → History → History
append messages h = record h { messages = h.messages ++ messages }

abbrev pub or_empty : Option (List Message) → List Message
or_empty none = []
or_empty (some messages) = messages

-- str(value or "")
abbrev pub id_text : (Json → Text) → Json → Text
id_text py_str v = if truthy v then text_of py_str v else []

module _ (py_str : Json → Text) where
  -- a round of the loop in flush_pending_assistant_tool_calls
  unfoldable pub flush_call : ToolCall → History → History
  unfolding get pop
  flush_call call h =
      let k = id_text py_str call.id in
      let flushed = record h {
        messages = h.messages ++ or_empty (get k h.deferred);
        deferred = pop k h.deferred;
        emitted = k ∷ h.emitted;
      } in
      if is_empty k then h else flushed

  unfoldable pub flush_calls : List ToolCall → History → History
  unfolding flush_call
  flush_calls [] h = h
  flush_calls (call ∷ calls) h = flush_calls calls (flush_call call h)

  -- flush_pending_assistant_tool_calls
  unfoldable pub flush : History → History
  unfolding flush_calls
  flush h =
      let flushed = flush_calls h.pending (append (calling h.pending ∷ []) h) in
      if is_empty h.pending then h else record flushed { pending = [] }

  abbrev pub pending_ids : List ToolCall → List Text
  pending_ids [] = []
  pending_ids (call ∷ calls) = id_text py_str call.id ∷ pending_ids calls

  -- deferred_tool_outputs.setdefault(call_id, []).extend(tool_messages)
  unfoldable pub defer : Text → List Message → History → History
  unfolding get put
  defer k messages h = record h {
    deferred = put k (or_empty (get k h.deferred) ++ messages) h.deferred;
  }

  -- the messages of an output, after its contents are made
  unfoldable pub place_output : Text → List Message → History → History
  unfolding flush defer mem
  place_output k messages h =
      let flushed = append messages (flush h) in
      if is_empty k
      then flushed
      else if mem k (pending_ids h.pending)
      then flushed
      else if mem k h.emitted
      then append messages h
      else defer k messages h
