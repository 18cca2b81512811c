-- ===== src/MessageStream/Content.antt =====
-- What a stream of Anthropic message events says: the texts of its deltas.
pub mod Relayed
use codex_shim.Prelude.{
  ℕ, ◌+◌, ◌≡◌, refl, sym, ap, ◌∙◌, Bool, true, false, not, ◌&&◌, Option, none, some, List, [], ◌∷◌,
  ◌++◌, append-nil, append_assoc, Text, arith, ltb, length, drop, is_empty, Bool-cases,
  Option-cases, inl, inr, if◌then◌else◌, on_true, on_false, on_none, on_some,
}
use codex_shim.Prelude.Dict.{get}
use codex_shim.Json.{Json}
use codex_shim.MessageStream.{
  ℕ-Eq, Delta, text_delta, thinking_delta, input_json_delta, Event, message_start, block_start,
  block_delta, block_stop, message_delta, message_stop, error_event, Call, Chunk, ToolState,
  MessageState, write_text, close_text, write_reasoning, close_reasoning, close_reasoning_if_open,
  close_text_if_open,
}
use codex_shim.MessageStream.Turn.{
  add_call, push_arguments, push_if_open, store_tool, tool_or_fresh, write_content,
  write_reasoning_if, open_tool, open_if_named, write_call, write_calls, write_chat_delta,
  close_tool, close_tools, close_blocks, sorted_indices, not_closed, open_not_closed, finish, fail,
}

module _ (pick : Delta → Text) where
  -- What is picked of the deltas among events, of which the newest stands first.
  unfoldable pub parts : List Event → Text
  parts [] = []
  parts (block_delta i delta ∷ events) = parts events ++ pick delta
  parts (block_start i block ∷ events) = parts events
  parts (block_stop i ∷ events) = parts events
  parts (message_start id model ∷ events) = parts events
  parts (message_delta reason usage ∷ events) = parts events
  parts (message_stop ∷ events) = parts events
  parts (error_event code message ∷ events) = parts events

  abbrev pub said : MessageState → Text
  said s = parts s.written

  abbrev pub optional : (Text → Delta) → Option Text → Text
  optional delta none = []
  optional delta (some t) = pick (delta t)

  -- What is picked of a chunk: of its reasoning, then of its content.
  abbrev pub chunk_parts : Chunk → Text
  chunk_parts chunk = optional thinking_delta chunk.reasoning ++ optional text_delta chunk.content

  close_text-said : (s : MessageState) → said (close_text_if_open s) ≡ said s
  unfolding close_text parts
  close_text-said s = ground arith

  close_reasoning-said : (s : MessageState) → said (close_reasoning_if_open s) ≡ said s
  unfolding close_reasoning parts
  close_reasoning-said s = ground arith

  write_text-said :
      (t : Text) (s : MessageState) → said (write_text t s) ≡ said s ++ pick (text_delta t)
  unfolding write_text parts
  write_text-said t s = ground arith

  write_reasoning-said :
      (t : Text) (s : MessageState) → said (write_reasoning t s) ≡ said s ++ pick (thinking_delta t)
  unfolding write_reasoning parts
  write_reasoning-said t s = ground arith

  write_content-said :
      (content : Option Text) (s : MessageState)
      → said (write_content content s) ≡ said s ++ optional text_delta content
  write_content-said none s = sym (append-nil (said s))
  write_content-said (some t) s =
      write_text-said t (close_reasoning_if_open s)
      ∙ ap (λ u. u ++ pick (text_delta t)) (close_reasoning-said s)

  write_reasoning_if-said :
      (reasoning : Option Text) (s : MessageState)
      → said (write_reasoning_if reasoning s) ≡ said s ++ optional thinking_delta reasoning
  write_reasoning_if-said none s = sym (append-nil (said s))
  write_reasoning_if-said (some t) s = write_reasoning-said t s

module _ (pick : Delta → Text) (quiet : (t : Text) → pick (input_json_delta t) ≡ []) where
  push_arguments-said :
      (tool : ToolState) (s : MessageState) → said pick (push_arguments tool s).1 ≡ said pick s
  unfolding push_arguments parts
  push_arguments-said tool s = elim (Bool-cases (ltb tool.emitted (length tool.arguments))) [
    | inl more ↦
        on_true (λ (r : ToolState × MessageState). said pick r.1 ≡ said pick s) more _ _
          (ap (λ u. said pick s ++ u) (quiet (drop tool.emitted tool.arguments))
            ∙ append-nil (said pick s))
    | inr all_sent ↦
        on_false (λ (r : ToolState × MessageState). said pick r.1 ≡ said pick s) all_sent _ _ refl
  ]

  push_if_open-said : (x : ToolState × MessageState) → said pick (push_if_open x).1 ≡ said pick x.1
  push_if_open-said (tool, s) = elim (Bool-cases tool.is_open) [
    | inl opened ↦
        on_true (λ (r : ToolState × MessageState). said pick r.1 ≡ said pick s) opened _ _
          (push_arguments-said tool s)
    | inr shut ↦
        on_false (λ (r : ToolState × MessageState). said pick r.1 ≡ said pick s) shut _ _ refl
  ]

  module _ (py_str : Json → Text) where
    open_tool-said :
        (k : ℕ) (tool : ToolState) (s : MessageState)
        → said pick (open_tool py_str k tool s).1 ≡ said pick s
    unfolding open_tool parts
    open_tool-said k tool s = refl

    open_if_named-said :
        (k : ℕ) (tool : ToolState) (s : MessageState)
        → said pick (open_if_named py_str k tool s).1 ≡ said pick s
    unfolding open_if_named
    open_if_named-said k tool s =
        let Good = λ (r : ToolState × MessageState). said pick r.1 ≡ said pick s in
        let silent = close_text_if_open (close_reasoning_if_open s) in
        elim (Bool-cases (not tool.is_open && not (is_empty tool.name))) [
          | inl named ↦ on_true Good named _ _ (
              open_tool-said k tool silent
              ∙ close_text-said pick (close_reasoning_if_open s)
              ∙ close_reasoning-said pick s)
          | inr kept ↦ on_false Good kept _ _ refl
        ]

    write_call-said :
        (call : Call) (s : MessageState) → said pick (write_call py_str call s) ≡ said pick s
    unfolding write_call
    write_call-said call s =
        let tool = add_call call (tool_or_fresh (get call.index s.tool_calls)) in
        push_if_open-said (open_if_named py_str call.index tool s)
        ∙ open_if_named-said call.index tool s

    write_calls-said :
        (calls : List Call) (s : MessageState)
        → said pick (write_calls py_str calls s) ≡ said pick s
    unfolding write_calls
    write_calls-said [] s = refl
    write_calls-said (call ∷ calls) s =
        write_calls-said calls (write_call py_str call s) ∙ write_call-said call s

    pub write_chat_delta-said :
        (chunk : Chunk) (s : MessageState)
        → said pick (write_chat_delta py_str chunk s) ≡ said pick s ++ chunk_parts pick chunk
    unfolding write_chat_delta
    write_chat_delta-said chunk s =
        write_calls-said chunk.calls _
        ∙ write_content-said pick chunk.content _
        ∙ ap (λ u. u ++ optional pick text_delta chunk.content)
            (write_reasoning_if-said pick chunk.reasoning _)
        ∙ append_assoc (said pick s) (optional pick thinking_delta chunk.reasoning)
            (optional pick text_delta chunk.content)

    close_tool-said :
        (k : ℕ) (tool : ToolState) (s : MessageState)
        → said pick (close_tool py_str k tool s).1 ≡ said pick s
    unfolding close_tool parts
    close_tool-said k tool s =
        let Good = λ (r : ToolState × MessageState). said pick r.1 ≡ said pick s in
        let opened = open_tool py_str k tool s in
        elim (Bool-cases tool.is_open) [
          | inl was_open ↦ on_true Good was_open (tool, s) _ refl
          | inr shut ↦
              on_false Good shut (tool, s) _
                (push_arguments-said opened.0 opened.1 ∙ open_tool-said k tool s)
        ]

    close_tools-said :
        (wanted : ToolState → Bool) (left : List ℕ) (s : MessageState)
        → said pick (close_tools py_str wanted left s) ≡ said pick s
    unfolding close_tools
    close_tools-said wanted [] s = refl
    close_tools-said wanted (k ∷ left) s =
        let tool = tool_or_fresh (get k s.tool_calls) in
        let Good =
          λ (t : MessageState). said pick (close_tools py_str wanted left t) ≡ said pick s in
        elim (Bool-cases (wanted tool)) [
          | inl go ↦ on_true Good go _ _ (close_tools-said wanted left _ ∙ close_tool-said k tool s)
          | inr skip ↦ on_false Good skip _ _ (close_tools-said wanted left s)
        ]

    pub close_blocks-said :
        (wanted : ToolState → Bool) (s : MessageState)
        → said pick (close_blocks py_str wanted s) ≡ said pick s
    unfolding close_blocks
    close_blocks-said wanted s =
        let closed = close_text_if_open (close_reasoning_if_open s) in
        close_tools-said wanted (sorted_indices closed.tool_calls) closed
        ∙ close_text-said pick (close_reasoning_if_open s)
        ∙ close_reasoning-said pick s
