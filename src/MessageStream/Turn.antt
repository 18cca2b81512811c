-- ===== src/MessageStream/Turn.antt =====
-- The tools of an Anthropic message stream, its deltas and its ends.
use codex_shim.Prelude.{
  ℕ, ◌+◌, Bool, true, false, not, ◌&&◌, ◌||◌, Option, none, some, List, [], ◌∷◌, ◌++◌, Text, codes,
  ltb, leb, length, drop, is_empty, if◌then◌else◌,
}
use codex_shim.Prelude.Dict.{Dict, get, put}
use codex_shim.Json.{Json, int, str, pos, Fields, truthy}
use codex_shim.Usage.{normalize_responses_usage, responses_usage_to_anthropic_usage}
use codex_shim.MessageStream.{
  ℕ-Eq, tool_block, input_json_delta, block_start, block_delta, block_stop, message_delta,
  message_stop, error_event, Call, Chunk, ToolState, fresh_tool, MessageState, write, write_text,
  close_text, write_reasoning, close_reasoning, close_reasoning_if_open, close_text_if_open,
}

-- the updates of a tool's state by a call
abbrev pub add_call : Call → ToolState → ToolState
add_call call tool = record tool {
  id = if truthy call.id then call.id else tool.id;
  name = tool.name ++ call.name;
  arguments = tool.arguments ++ call.arguments;
}

abbrev pub name_or_tool : Text → Text
name_or_tool [] = codes "tool"
name_or_tool (c ∷ name) = c ∷ name

-- if len(state["arguments"]) > state["emitted"]
unfoldable pub push_arguments : ToolState → MessageState → ToolState × MessageState
push_arguments tool s =
    let pushed = record tool { emitted = length tool.arguments } in
    let part = input_json_delta (drop tool.emitted tool.arguments) in
    if ltb tool.emitted (length tool.arguments)
    then (pushed, write (block_delta tool.block_index part) s)
    else (tool, s)

abbrev pub push_if_open : ToolState × MessageState → ToolState × MessageState
push_if_open (tool, s) = if tool.is_open then push_arguments tool s else (tool, s)

abbrev pub store_tool : ℕ → ToolState × MessageState → MessageState
store_tool index (tool, s) = record s { tool_calls = put index tool s.tool_calls }

abbrev pub tool_or_fresh : Option ToolState → ToolState
tool_or_fresh none = fresh_tool
tool_or_fresh (some tool) = tool

abbrev pub write_content : Option Text → MessageState → MessageState
write_content none s = s
write_content (some text) s = write_text text (close_reasoning_if_open s)

abbrev pub write_reasoning_if : Option Text → MessageState → MessageState
write_reasoning_if none s = s
write_reasoning_if (some text) s = write_reasoning text s

abbrev pub note_usage : Option Fields → Option Fields → Option Fields
note_usage none usage = usage
note_usage (some new) usage = some (normalize_responses_usage new)

abbrev pub note_reason : Option Text → Text → Text
note_reason none reason = reason
note_reason (some new) reason = new

-- sorted(self.tool_calls)
unfoldable pub insert_index : ℕ → List ℕ → List ℕ
insert_index i [] = i ∷ []
insert_index i (j ∷ js) = if leb i j then i ∷ j ∷ js else j ∷ insert_index i js

unfoldable pub sorted_indices : Dict ℕ ToolState → List ℕ
unfolding insert_index
sorted_indices [] = []
sorted_indices ((i, tool) ∷ tools) = insert_index i (sorted_indices tools)

abbrev pub not_closed : ToolState → Bool
not_closed tool = not tool.closed

abbrev pub open_not_closed : ToolState → Bool
open_not_closed tool = tool.is_open && not tool.closed

abbrev pub anthropic_usage : Option Fields → Option Fields
anthropic_usage none = none
anthropic_usage (some usage) = some (responses_usage_to_anthropic_usage usage)

module _ (py_str : Json → Text) where
  -- _open_tool
  unfoldable pub open_tool : ℕ → ToolState → MessageState → ToolState × MessageState
  open_tool index tool s =
      let call_id = str (codes "call_" ++ py_str (int (pos index))) in
      let id = if truthy tool.id then tool.id else call_id in
      (
        record tool { block_index = s.next_index; is_open = true; id = id },
        record s {
          next_index = s.next_index + 1;
          written = block_start s.next_index (tool_block id (name_or_tool tool.name)) ∷ s.written;
        },
      )

  -- if not state["open"] and state["name"]
  unfoldable pub open_if_named : ℕ → ToolState → MessageState → ToolState × MessageState
  unfolding open_tool close_text close_reasoning
  open_if_named index tool s =
      if not tool.is_open && not (is_empty tool.name)
      then open_tool index tool (close_text_if_open (close_reasoning_if_open s))
      else (tool, s)

  -- _tool_delta
  unfoldable pub write_call : Call → MessageState → MessageState
  unfolding open_if_named push_arguments get put
  write_call call s =
      let tool = add_call call (tool_or_fresh (get call.index s.tool_calls)) in
      store_tool call.index (push_if_open (open_if_named call.index tool s))

  unfoldable pub write_calls : List Call → MessageState → MessageState
  unfolding write_call
  write_calls [] s = s
  write_calls (call ∷ calls) s = write_calls calls (write_call call s)

  -- write_chat_delta
  unfoldable pub write_chat_delta : Chunk → MessageState → MessageState
  unfolding write_calls write_text write_reasoning close_reasoning normalize_responses_usage
  write_chat_delta chunk s =
      let noted = record s {
        usage = note_usage chunk.usage s.usage;
        stop_reason = note_reason chunk.stop_reason s.stop_reason;
      } in
      write_calls chunk.calls
        (write_content chunk.content (write_reasoning_if chunk.reasoning noted))

  -- _close_tool
  unfoldable pub close_tool : ℕ → ToolState → MessageState → ToolState × MessageState
  unfolding open_tool push_arguments
  close_tool index tool s =
      let opened = open_tool index tool s in
      let (pushed, t) = push_arguments opened.0 opened.1 in
      let (tool', s') = if tool.is_open then (tool, s) else (pushed, t) in
      (record tool' { is_open = false; closed = true }, write (block_stop tool'.block_index) s')

  -- the loop of `finish`, and of `fail`, over those that are to be closed
  unfoldable pub close_tools : (ToolState → Bool) → List ℕ → MessageState → MessageState
  unfolding close_tool get put
  close_tools wanted [] s = s
  close_tools wanted (index ∷ indices) s =
      let tool = tool_or_fresh (get index s.tool_calls) in
      close_tools wanted indices
        (if wanted tool then store_tool index (close_tool index tool s) else s)

  unfoldable pub close_blocks : (ToolState → Bool) → MessageState → MessageState
  unfolding close_tools close_text close_reasoning sorted_indices
  close_blocks wanted s =
      let closed = close_text_if_open (close_reasoning_if_open s) in
      close_tools wanted (sorted_indices closed.tool_calls) closed

  unfoldable pub finish : MessageState → MessageState
  unfolding close_blocks responses_usage_to_anthropic_usage
  finish s =
      let closed = close_blocks not_closed s in
      let delta = message_delta s.stop_reason (anthropic_usage s.usage) in
      let finished = record closed {
        written = message_stop ∷ delta ∷ closed.written;
        terminal_emitted = true;
      } in
      if s.failed || s.terminal_emitted then s else finished

  unfoldable pub fail : (message code : Text) → MessageState → MessageState
  unfolding close_blocks
  fail message code s =
      let closed = close_blocks open_not_closed s in
      let finished = record closed {
        written = error_event code message ∷ closed.written;
        failed = true;
        terminal_emitted = true;
      } in
      if s.failed || s.terminal_emitted then s else finished
