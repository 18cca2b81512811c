-- ===== src/MessageStream.antt =====
-- `AnthropicMessagesStreamState` of codex_shim/server.py: chat completion chunks as the events of an
-- Anthropic message. What is written is kept as a list, the newest event first.
pub mod Turn
pub mod Wire
pub mod Protocol
pub mod Blocks
pub mod Relay
pub mod Endings
pub mod Content
use codex_shim.Prelude.{
  ℕ, suc, ◌+◌, ◌≡◌, Bool, true, false, not, ◌&&◌, ◌||◌, Option, none, some, List, [], ◌∷◌, ◌++◌,
  map, Text, codes, Eq, nat_eq, nat_eq_iff, ltb, leb, length, drop, is_empty, if◌then◌else◌,
}
use codex_shim.Prelude.Dict.{Dict, get, put}
use codex_shim.Json.{Json, null, int, str, obj, arr, pos, nil, Fields, field, end, truthy}
use codex_shim.Emitters.{Frame, named, typed}
use codex_shim.Usage.{normalize_responses_usage, responses_usage_to_anthropic_usage}

instance abbrev pub ℕ-Eq : Eq ℕ
ℕ-Eq = record { same = nat_eq; same_iff = nat_eq_iff }

-- The kinds of content blocks, and of their deltas.
pub data Block : Type 0 where
  text_block thinking_block : Block
  tool_block : (id : Json) (name : Text) → Block

pub data Delta : Type 0 where
  text_delta thinking_delta input_json_delta : Text → Delta

pub data Event : Type 0 where
  message_start : (message_id model : Text) → Event
  block_start : ℕ → Block → Event
  block_delta : ℕ → Delta → Event
  block_stop : ℕ → Event
  message_delta : (stop_reason : Text) (usage : Option Fields) → Event
  message_stop : Event
  error_event : (code message : Text) → Event

-- A call in a chunk: an id, a name and arguments that are empty where the chunk has none.
pub record Call : Type 0 where
  pub index : ℕ
  pub id : Json
  pub name : Text
  pub arguments : Text

-- A chunk: each part, if it has one.
pub record Chunk : Type 0 where
  pub usage : Option Fields
  pub stop_reason : Option Text
  pub reasoning : Option Text
  pub content : Option Text
  pub calls : List Call

-- `block_index` is read only after `_open_tool` has set it; before, it is 0 where the source has None.
pub record ToolState : Type 0 where
  pub id : Json
  pub name : Text
  pub arguments : Text
  pub emitted : ℕ
  pub block_index : ℕ
  pub is_open : Bool
  pub closed : Bool

abbrev pub fresh_tool : ToolState
fresh_tool = record {
  id = str [];
  name = [];
  arguments = [];
  emitted = 0;
  block_index = 0;
  is_open = false;
  closed = false;
}

pub record MessageState : Type 0 where
  pub next_index : ℕ
  pub text_index : Option ℕ
  pub reasoning_index : Option ℕ
  pub text_open : Bool
  pub reasoning_open : Bool
  pub tool_calls : Dict ℕ ToolState
  pub usage : Option Fields
  pub stop_reason : Text
  pub failed : Bool
  pub terminal_emitted : Bool
  pub written : List Event

abbrev pub write : Event → MessageState → MessageState
write event s = record s { written = event ∷ s.written }

-- `__init__`, then `start`
abbrev pub started : (message_id model : Text) → MessageState
started message_id model = record {
  next_index = 0;
  text_index = none;
  reasoning_index = none;
  text_open = false;
  reasoning_open = false;
  tool_calls = [];
  usage = none;
  stop_reason = codes "end_turn";
  failed = false;
  terminal_emitted = false;
  written = message_start message_id model ∷ [];
}

-- _text_delta
unfoldable pub write_text : Text → MessageState → MessageState
write_text text s = elim s.text_index [
  | some i ↦ write (block_delta i (text_delta text)) s
  | none ↦
      let i = s.next_index in
      let opened = record s { text_index = some i; next_index = i + 1; text_open = true } in
      write (block_delta i (text_delta text)) (write (block_start i text_block) opened)
]

-- _close_text
unfoldable pub close_text : MessageState → MessageState
close_text s = elim s.text_index [
  | none ↦ s
  | some i ↦ record s { written = block_stop i ∷ s.written; text_index = none; text_open = false }
]

-- _reasoning_delta
unfoldable pub write_reasoning : Text → MessageState → MessageState
write_reasoning text s = elim s.reasoning_index [
  | some i ↦ write (block_delta i (thinking_delta text)) s
  | none ↦
      let i = s.next_index in
      let opened = record s {
        reasoning_index = some i;
        next_index = i + 1;
        reasoning_open = true;
      } in
      write (block_delta i (thinking_delta text)) (write (block_start i thinking_block) opened)
]

-- _close_reasoning
unfoldable pub close_reasoning : MessageState → MessageState
close_reasoning s = elim s.reasoning_index [
  | none ↦ s
  | some i ↦ record s {
    written = block_stop i ∷ s.written;
    reasoning_index = none;
    reasoning_open = false;
  }
]

abbrev pub close_reasoning_if_open : MessageState → MessageState
close_reasoning_if_open s = if s.reasoning_open then close_reasoning s else s

abbrev pub close_text_if_open : MessageState → MessageState
close_text_if_open s = if s.text_open then close_text s else s
