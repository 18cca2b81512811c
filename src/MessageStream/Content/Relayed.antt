-- ===== src/MessageStream/Content/Relayed.antt =====
-- What the whole stream of an Anthropic message says.
use codex_shim.Prelude.{
  ◌≡◌, refl, sym, ap, ◌∙◌, Bool, not, ◌||◌, true, false, none, some, List, [], ◌∷◌, ◌++◌,
  append-nil, append_assoc, Text, codes, Bool-cases, inl, inr, if◌then◌else◌, on_true, on_false,
}
use codex_shim.Json.{Json}
use codex_shim.StreamGuard.{
  Reply, emitted, raised_disconnect, raised_cancelled, raised_other, Leaving, normally,
  with_disconnect, with_cancelled, with_exception, Terminal, over, gone, cancelled, Exit, returns,
  Guard, new_guard, enter, mark_upstream_done, note_upstream_event, note_upstream_disconnect,
  note_reply, after_terminal, clean_up, complete_terminal, fail_terminal, shim_error, leave, aexit,
}
use codex_shim.Emitters.Relay.{Upstream, ended, broken}
use codex_shim.MessageStream.{Delta, input_json_delta, MessageState, started}
use codex_shim.MessageStream.Turn.{not_closed, open_not_closed, finish, fail}
use codex_shim.MessageStream.Relay.{
  is_settled, Line, done_line, other_text, payload, messages_complete, messages_fail,
  messages_emitter, leaving_of, take_part, stream_lines, stream_openai_chat_as_anthropic,
}
use codex_shim.MessageStream.Content.{
  parts, said, chunk_parts, write_chat_delta-said, close_blocks-said,
}

module _ (pick : Delta → Text) where
  -- What is picked of the lines up to the end marker, or to the one that raises.
  unfoldable pub lines_parts : List Line → Text
  lines_parts [] = []
  lines_parts (done_line ∷ lines) = []
  lines_parts (other_text ∷ lines) = lines_parts lines
  lines_parts (payload part none ∷ lines) = chunk_parts pick part ++ lines_parts lines
  lines_parts (payload part (some raised) ∷ lines) = chunk_parts pick part

  guard_said : Guard MessageState → Text
  guard_said g = said pick g.emitter

  leaving_of-said :
      (x : Guard MessageState × Terminal) → guard_said (leaving_of x).0 ≡ guard_said x.0
  leaving_of-said (g, over) = refl
  leaving_of-said (g, gone) = refl
  leaving_of-said (g, cancelled) = refl

  note_reply-said :
      (g : Guard MessageState) (x : MessageState × Reply)
      → guard_said (note_reply g x).0 ≡ said pick x.0
  unfolding guard_said
  note_reply-said g (s, emitted event) = refl
  note_reply-said g (s, raised_disconnect) = refl
  note_reply-said g (s, raised_cancelled) = refl
  note_reply-said g (s, raised_other) = refl

  after_terminal-said :
      (b : Bool) (x : Guard MessageState × Terminal)
      → guard_said (after_terminal b x).0 ≡ guard_said x.0
  after_terminal-said b (g, over) = refl
  after_terminal-said b (g, gone) = refl
  after_terminal-said b (g, cancelled) = refl

  module _ (quiet : (t : Text) → pick (input_json_delta t) ≡ []) (py_str : Json → Text) where
    finish-said : (s : MessageState) → said pick (finish py_str s) ≡ said pick s
    unfolding finish parts
    finish-said s = elim (Bool-cases (is_settled s)) [
      | inl settled ↦ on_true (λ t. said pick t ≡ said pick s) settled _ _ refl
      | inr live ↦
          on_false (λ t. said pick t ≡ said pick s) live s _
            (close_blocks-said pick quiet py_str not_closed s)
    ]

    fail-said :
        (message code : Text) (s : MessageState)
        → said pick (fail py_str message code s) ≡ said pick s
    unfolding fail parts
    fail-said message code s = elim (Bool-cases (is_settled s)) [
      | inl settled ↦ on_true (λ t. said pick t ≡ said pick s) settled _ _ refl
      | inr live ↦
          on_false (λ t. said pick t ≡ said pick s) live s _
            (close_blocks-said pick quiet py_str open_not_closed s)
    ]

    messages_complete-said :
        (s : MessageState) (b : Bool) → said pick (messages_complete py_str s b).0 ≡ said pick s
    unfolding messages_complete
    messages_complete-said s b =
        let Good = λ (x : MessageState × Reply). said pick x.0 ≡ said pick s in
        elim (Bool-cases (is_settled s)) [
          | inl settled ↦ on_true Good settled _ _ refl
          | inr live ↦ on_false Good live (s, _) _ (finish-said s)
        ]

    messages_fail-said :
        (s : MessageState) (message code : Text)
        → said pick (messages_fail py_str s message code).0 ≡ said pick s
    unfolding messages_fail
    messages_fail-said s message code =
        let Good = λ (x : MessageState × Reply). said pick x.0 ≡ said pick s in
        elim (Bool-cases (is_settled s)) [
          | inl settled ↦ on_true Good settled _ _ refl
          | inr live ↦ on_false Good live (s, _) _ (fail-said message code s)
        ]

    stream_lines-said :
        (lines : List Line) (upstream : Upstream) (g : Guard MessageState)
        → guard_said (stream_lines py_str lines upstream g).0 ≡ guard_said g ++ lines_parts lines
    unfolding stream_lines lines_parts take_part note_upstream_event note_upstream_disconnect
        mark_upstream_done guard_said
    stream_lines-said [] ended g = sym (append-nil (guard_said g))
    stream_lines-said [] (broken exc) g =
        let failed =
          messages_fail py_str g.emitter (codes "Upstream stream disconnected: " ++ exc)
            (codes "upstream_disconnect") in
        let Good =
          λ (x : Guard MessageState × Terminal). guard_said (leaving_of x).0 ≡ guard_said g ++ [] in
        elim (Bool-cases (not g.has_response || is_settled g.emitter)) [
          | inl told ↦ on_true Good told (g, over) _ (sym (append-nil (guard_said g)))
          | inr untold ↦
              on_false Good untold (g, over) (note_reply g failed)
                (leaving_of-said (note_reply g failed)
                  ∙ note_reply-said g failed
                  ∙ messages_fail-said g.emitter _ _
                  ∙ sym (append-nil (guard_said g)))
        ]
    stream_lines-said (done_line ∷ lines) upstream g = sym (append-nil (guard_said g))
    stream_lines-said (other_text ∷ lines) upstream g =
        stream_lines-said lines upstream (note_upstream_event g)
    stream_lines-said (payload part none ∷ lines) upstream g =
        stream_lines-said lines upstream (take_part py_str part g)
        ∙ ap (λ u. u ++ lines_parts lines) (write_chat_delta-said pick quiet py_str part g.emitter)
        ∙ append_assoc (guard_said g) (chunk_parts pick part) (lines_parts lines)
    stream_lines-said (payload part (some raised) ∷ lines) upstream g =
        write_chat_delta-said pick quiet py_str part g.emitter

    replied-said :
        (b responds : Bool) (g : Guard MessageState) (x : MessageState × Reply)
        → said pick x.0 ≡ guard_said g
        → guard_said (after_terminal b (if responds then note_reply g x else (g, over))).0
          ≡ guard_said g
    replied-said b true g x e = after_terminal-said b (note_reply g x) ∙ note_reply-said g x ∙ e
    replied-said b false g x e = refl

    aexit-said :
        (leaving : Leaving) (g : Guard MessageState)
        → guard_said (aexit (messages_emitter py_str) leaving g).0 ≡ guard_said g
    unfolding aexit leave complete_terminal fail_terminal clean_up guard_said
    aexit-said with_disconnect g = refl
    aexit-said with_cancelled g = refl
    aexit-said normally g =
        let Good = λ (y : Guard MessageState × Exit). guard_said y.0 ≡ guard_said g in
        let reply =
          replied-said false g.has_response g
            (messages_complete py_str g.emitter g.upstream_saw_done)
            (messages_complete-said g.emitter g.upstream_saw_done) in
        elim (Bool-cases g.abandoned) [
          | inl abandoned ↦ on_true Good abandoned (g, returns false) _ refl
          | inr live ↦ on_false Good live (g, returns false) _ reply
        ]
    aexit-said (with_exception name text) g =
        let Good = λ (y : Guard MessageState × Exit). guard_said y.0 ≡ guard_said g in
        let code = codes "shim_stream_error" in
        let failed = messages_fail py_str g.emitter (shim_error name text) code in
        let reply =
          replied-said true g.has_response g failed
            (messages_fail-said g.emitter (shim_error name text) code) in
        let noted = if g.has_response then note_reply g failed else (g, over) in
        elim (Bool-cases g.abandoned) [
          | inl abandoned ↦
              on_true Good abandoned (g, returns false) (after_terminal true noted) refl
          | inr live ↦ on_false Good live (g, returns false) (after_terminal true noted) reply
        ]

    -- For any texts that are picked of text and thinking deltas, and are empty for deltas of tool
    -- arguments: those picked of the deltas that a client is sent, in their order, are those picked of the
    -- upstream's chunks up to the end marker or the one that raises, of each its reasoning and then its
    -- content. No text is lost, repeated or moved, however the stream ends.
    pub stream_openai_chat_as_anthropic-parts :
        (message_id model : Text) (lines : List Line) (upstream : Upstream)
        → parts pick
            (stream_openai_chat_as_anthropic py_str message_id model lines
              upstream).0.emitter.written
          ≡ lines_parts lines
    unfolding stream_openai_chat_as_anthropic enter parts guard_said
    stream_openai_chat_as_anthropic-parts message_id model lines upstream =
        let guard = enter (new_guard (started message_id model) true true) in
        let (left, leaving) = stream_lines py_str lines upstream guard in
        aexit-said leaving left ∙ stream_lines-said lines upstream guard
