-- ===== src/MessageStream/Endings.antt =====
-- A stream of Anthropic message events, from its start to the exit of its guard.
use codex_shim.Prelude.{
  ◌≡◌, refl, sym, ◌⊎◌, Bool, true, false, not, ◌||◌, none, some, List, [], ◌∷◌, Text, codes, arith,
  inl, inr, on_true, on_false,
}
use mathlib.Core.Path.{subst}
use codex_shim.Json.{Json}
use codex_shim.StreamGuard.{
  Reply, emitted, Leaving, normally, with_exception, Terminal, over, Exit, returns, Guard,
  new_guard, enter, mark_upstream_done, note_upstream_event, note_upstream_disconnect, note_reply,
  after_terminal, clean_up, complete_terminal, fail_terminal, leave, aexit,
}
use codex_shim.Emitters.Relay.{Upstream, ended, broken}
use codex_shim.MessageStream.{MessageState, started}
use codex_shim.MessageStream.Turn.{finish, fail, not_closed, open_not_closed}
use codex_shim.MessageStream.Relay.{
  is_settled, Line, done_line, other_text, payload, messages_complete, messages_fail,
  messages_emitter, leaving_of, take_part, stream_lines, stream_openai_chat_as_anthropic,
}
use codex_shim.MessageStream.Protocol.{ends, is_open, NoneOpen, IsProtocol}
use codex_shim.MessageStream.Blocks.Deltas.{
  IsRunning, started-IsRunning, write_chat_delta-IsRunning,
}
use codex_shim.MessageStream.Blocks.Closing.Loop.{not_closed-IsThorough, open_not_closed-IsThorough}
use codex_shim.MessageStream.Blocks.Closing.Finish.{close_blocks-closed}

-- The message has ended: its events follow the protocol, no block is open, and one event ended it.
record IsSettled (s : MessageState) : Type 0 where
  follows : IsProtocol s.written
  closed : NoneOpen s.written
  once : ends s.written ≡ 1
  settled : is_settled s ≡ true

unsettled : (s : MessageState) → IsRunning s → is_settled s ≡ false
unsettled s w = ground (arith, w.live, w.going)

IsStreaming : MessageState → Type 0
IsStreaming s = IsRunning s ⊎ IsSettled s

module _ (py_str : Json → Text) where
  finish-IsSettled : (s : MessageState) → IsRunning s → IsSettled (finish py_str s)
  unfolding finish IsProtocol is_open ends
  finish-IsSettled s w =
      let (closed, follows, unended) =
        close_blocks-closed py_str not_closed not_closed-IsThorough s w in
      on_false IsSettled (unsettled s w) s _ (record {
        follows = (λ i. closed i, follows);
        closed = λ i. closed i;
        once = omega (arith, unended);
        settled = ground arith;
      })

  fail-IsSettled :
      (message code : Text) (s : MessageState)
      → IsRunning s
      → IsSettled (fail py_str message code s)
  unfolding fail IsProtocol is_open ends
  fail-IsSettled message code s w =
      let (closed, follows, unended) =
        close_blocks-closed py_str open_not_closed open_not_closed-IsThorough s w in
      on_false IsSettled (unsettled s w) s _ (record {
        follows = (λ i. closed i, follows);
        closed = λ i. closed i;
        once = omega (arith, unended);
        settled = refl;
      })

  -- What holds of the reply of the emitter holds in each of its branches.
  complete-case :
      (P : MessageState × Reply → Type 0) (s : MessageState) (done : Bool)
      → IsStreaming s
      → ((t : MessageState) (event : Text) → IsSettled t → P (t, emitted event))
      → P (messages_complete py_str s done)
  unfolding messages_complete IsStreaming
  complete-case P s done (inl running) at =
      on_false P (unsettled s running) _ _
        (at (finish py_str s) (codes "message_stop") (finish-IsSettled s running))
  complete-case P s done (inr settled) at = on_true P settled.settled _ _ (at s _ settled)

  fail-case :
      (P : MessageState × Reply → Type 0) (message code : Text) (s : MessageState)
      → IsStreaming s
      → ((t : MessageState) (event : Text) → IsSettled t → P (t, emitted event))
      → P (messages_fail py_str s message code)
  unfolding messages_fail IsStreaming
  fail-case P message code s (inl running) at =
      on_false P (unsettled s running) _ _
        (at (fail py_str message code s) (codes "error") (fail-IsSettled message code s running))
  fail-case P message code s (inr settled) at = on_true P settled.settled _ _ (at s _ settled)

  -- The ways in which the body is left.
  record IsLeft (x : Guard MessageState × Leaving) : Type 0 where
    streaming : IsStreaming x.0.emitter
    responds : x.0.has_response ≡ true
    live : x.0.abandoned ≡ false
    how : (x.1 ≡ normally) ⊎ ((name : Text) × (text : Text) × (x.1 ≡ with_exception name text))

  stream_lines-IsLeft :
      (lines : List Line) (upstream : Upstream) (g : Guard MessageState)
      → IsRunning g.emitter
      → g.has_response ≡ true
      → g.abandoned ≡ false
      → IsLeft (stream_lines py_str lines upstream g)
  unfolding stream_lines take_part note_upstream_event note_upstream_disconnect mark_upstream_done
      IsStreaming
  stream_lines-IsLeft [] ended g w responds live = record {
    streaming = inl w;
    responds = responds;
    live = live;
    how = inl refl;
  }
  stream_lines-IsLeft [] (broken exc) g w responds live =
      let Good = λ (x : Guard MessageState × Terminal). IsLeft (leaving_of x) in
      on_false {b = not g.has_response || is_settled g.emitter} Good
        (ground (arith, responds, unsettled g.emitter w)) (g, over) _
        (fail-case (λ x. Good (note_reply g x)) _ _ g.emitter (inl w)
          (λ t event settled. record {
            streaming = inr settled;
            responds = responds;
            live = live;
            how = inl refl;
          }))
  stream_lines-IsLeft (done_line ∷ lines) upstream g w responds live = record {
    streaming = inl w;
    responds = responds;
    live = live;
    how = inl refl;
  }
  stream_lines-IsLeft (other_text ∷ lines) upstream g w responds live =
      stream_lines-IsLeft lines upstream (note_upstream_event g) w responds live
  stream_lines-IsLeft (payload part none ∷ lines) upstream g w responds live =
      stream_lines-IsLeft lines upstream (take_part py_str part g)
        (write_chat_delta-IsRunning py_str part g.emitter w) responds live
  stream_lines-IsLeft (payload part (some (name, text)) ∷ lines) upstream g w responds live =
      record {
        streaming = inl (write_chat_delta-IsRunning py_str part g.emitter w);
        responds = responds;
        live = live;
        how = inr (name, text, refl);
      }

  exit-IsSettled :
      (g : Guard MessageState) (leaving : Leaving)
      → IsLeft (g, leaving)
      → IsSettled (aexit (messages_emitter py_str) leaving g).0.emitter
  unfolding aexit leave complete_terminal fail_terminal clean_up
  exit-IsSettled g leaving left =
      let Left = λ (y : Guard MessageState × Exit). IsSettled (clean_up y.0).emitter in
      let Good = λ (how : Leaving). IsSettled (aexit (messages_emitter py_str) how g).0.emitter in
      elim left.how [
        | inl normal ↦ subst Good (sym normal) (
            on_false Left left.live (g, returns false) _
              (on_true (λ (y : Guard MessageState × Terminal). Left (after_terminal false y))
                left.responds _ (g, over)
                (complete-case (λ x. Left (after_terminal false (note_reply g x))) g.emitter
                  g.upstream_saw_done left.streaming (λ t event settled. settled))))
        | inr (name, text, raised) ↦ subst Good (sym raised) (
            on_false Left left.live (g, returns false) _
              (on_true (λ (y : Guard MessageState × Terminal). Left (after_terminal true y))
                left.responds _ (g, over)
                (fail-case (λ x. Left (after_terminal true (note_reply g x))) _ _ g.emitter
                  left.streaming (λ t event settled. settled))))
      ]

  -- The events of a stream to a client that stays, whatever the upstream sends, and whether it ends,
  -- breaks or sends what raises: blocks are started with the indices 0, 1, 2, …, a delta is of a block
  -- that is open, only an open block is stopped; in the end no block is open, and one event has ended the
  -- message, when no block was open.
  pub stream_openai_chat_as_anthropic-IsProtocol :
      (message_id model : Text) (lines : List Line) (upstream : Upstream)
      → let events =
          (stream_openai_chat_as_anthropic py_str message_id model lines
            upstream).0.emitter.written in
        IsProtocol events × NoneOpen events × (ends events ≡ 1)
  unfolding stream_openai_chat_as_anthropic enter
  stream_openai_chat_as_anthropic-IsProtocol message_id model lines upstream =
      let guard = enter (new_guard (started message_id model) true true) in
      let (left, leaving) = stream_lines py_str lines upstream guard in
      let over_now =
        exit-IsSettled left leaving (
          stream_lines-IsLeft lines upstream guard (started-IsRunning message_id model) refl
            refl) in
      (over_now.follows, over_now.closed, over_now.once)
