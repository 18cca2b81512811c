-- ===== src/MessageStream/Relay.antt =====
-- `AnthropicMessagesEmitter` of codex_shim/net/emitters.py and the handler
-- `_stream_openai_chat_as_anthropic` of codex_shim/server.py, for a client that stays.
use codex_shim.Prelude.{
  Bool, true, ◌||◌, Option, none, some, List, [], ◌∷◌, Text, codes, if◌then◌else◌,
}
use codex_shim.Json.{Json}
use codex_shim.StreamGuard.{
  Reply, emitted, Emitter, Leaving, normally, with_disconnect, with_cancelled, with_exception,
  Terminal, over, gone, cancelled, Exit, Guard, new_guard, enter, mark_upstream_done,
  note_upstream_event, note_upstream_disconnect, aexit,
}
use codex_shim.Emitters.Relay.{Upstream, ended, broken}
use codex_shim.MessageStream.{Chunk, MessageState, started}
use codex_shim.MessageStream.Turn.{write_chat_delta, finish, fail}

abbrev pub is_settled : MessageState → Bool
is_settled s = s.failed || s.terminal_emitted

-- terminal_event, or what a call names where there is none
abbrev pub settled_event : Text → MessageState → Text
settled_event default s =
    if s.failed then codes "error" else if s.terminal_emitted then codes "message_stop" else default

abbrev pub leaving_of : Guard MessageState × Terminal → Guard MessageState × Leaving
leaving_of (g, over) = (g, normally)
leaving_of (g, gone) = (g, with_disconnect)
leaving_of (g, cancelled) = (g, with_cancelled)

-- A line of the upstream: the end marker, one that is no JSON, or JSON of which a part is read and which
-- then raises, or does not.
pub data Line : Type 0 where
  done_line other_text : Line
  payload : (part : Chunk) (raised : Option (Text × Text)) → Line

module _ (py_str : Json → Text) where
  unfoldable pub messages_complete : MessageState → Bool → MessageState × Reply
  unfolding finish
  messages_complete s upstream_saw_done =
      if is_settled s
      then (s, emitted (settled_event (codes "message_stop") s))
      else (finish py_str s, emitted (codes "message_stop"))

  unfoldable pub messages_fail : MessageState → (message code : Text) → MessageState × Reply
  unfolding fail
  messages_fail s message code =
      if is_settled s
      then (s, emitted (settled_event (codes "error") s))
      else (fail py_str message code s, emitted (codes "error"))

  abbrev pub messages_emitter : Emitter MessageState
  messages_emitter = record {
    already_emitted = is_settled;
    complete = messages_complete;
    fail = messages_fail;
  }

  -- the state after a line's part is written; `iter_sse` counts the line
  unfoldable pub take_part : Chunk → Guard MessageState → Guard MessageState
  unfolding write_chat_delta note_upstream_event
  take_part part g =
      note_upstream_event (record g { emitter = write_chat_delta py_str part g.emitter })

  -- the body of the `async with`, after `start`
  unfoldable pub stream_lines :
      List Line → Upstream → Guard MessageState → Guard MessageState × Leaving
  unfolding take_part note_upstream_event note_upstream_disconnect mark_upstream_done messages_fail
  stream_lines [] ended g = (g, normally)
  stream_lines [] (broken exc) g = leaving_of (note_upstream_disconnect messages_emitter exc g)
  stream_lines (done_line ∷ lines) upstream g =
      (mark_upstream_done (note_upstream_event g), normally)
  stream_lines (other_text ∷ lines) upstream g = stream_lines lines upstream (note_upstream_event g)
  stream_lines (payload part none ∷ lines) upstream g =
      stream_lines lines upstream (take_part part g)
  stream_lines (payload part (some (name, text)) ∷ lines) upstream g =
      (take_part part g, with_exception name text)

  unfoldable pub stream_openai_chat_as_anthropic :
      (message_id model : Text) → List Line → Upstream → Guard MessageState × Exit
  unfolding enter stream_lines aexit messages_complete messages_fail
  stream_openai_chat_as_anthropic message_id model lines upstream =
      let guard = enter (new_guard (started message_id model) true true) in
      let (left, leaving) = stream_lines lines upstream guard in aexit messages_emitter leaving left
