-- ===== src/MessageStream/Blocks/Deltas.antt =====
-- What holds of a message state while chunks come in.
use codex_shim.Prelude.{
  ℕ, ◌≡◌, refl, sym, ap, ◌∙◌, false, Option, none, some, List, [], ◌∷◌, Text, arith, nat_eq,
  Bool-cases, inl, inr, if◌then◌else◌,
}
use mathlib.Core.Path.{subst}
use codex_shim.Prelude.Dict.{get, put, pop, Unique, put-Unique, get-put, share, sum_of, sum_of-pop}
use codex_shim.Prelude.Dict.Sums.{sum_of-put-pop}
use codex_shim.Json.{Json, Fields}
use codex_shim.MessageStream.{
  ℕ-Eq, Call, Chunk, ToolState, MessageState, started, close_reasoning_if_open,
}
use codex_shim.MessageStream.Turn.{
  add_call, open_if_named, push_if_open, store_tool, tool_or_fresh, write_call, write_calls,
  write_content, write_reasoning_if, write_chat_delta,
}
use codex_shim.MessageStream.Protocol.{starts, ends, is_open, IsProtocol}
use codex_shim.MessageStream.Blocks.{
  Holding, write_text-Holding, write_reasoning-Holding, close_reasoning_if_open-Holding,
}
use codex_shim.MessageStream.Blocks.Tools.{
  holds, all_hold, SameTools, SameTools-trans, Holding-same, close_reasoning-SameTools,
  write_text-SameTools, write_reasoning-SameTools, IsMid, open_if_named-IsMid, push_if_open-IsMid,
}

-- Each open block is the text's, the reasoning's or a tool's, no tool is closed, and the message has
-- not ended.
pub record IsRunning (s : MessageState) : Type 0 where
  pub holding : Holding s (all_hold s.tool_calls)
  pub unique : Unique s.tool_calls
  pub unclosed : (k : ℕ) (tool : ToolState) → get k s.tool_calls ≡ some tool → tool.closed ≡ false
  pub live : s.failed ≡ false
  pub going : s.terminal_emitted ≡ false

pub started-IsRunning : (message_id model : Text) → IsRunning (started message_id model)
unfolding sum_of get starts is_open IsProtocol ends
started-IsRunning message_id model = record {
  holding = record {
    text_flag = refl;
    reasoning_flag = refl;
    tracks = record { follows = tt; count = refl; unended = refl; holds = λ i. refl };
  };
  unique = tt;
  unclosed = λ k tool e. cc;
  live = refl;
  going = refl;
}

-- The same tools, and blocks that are held as before.
same-IsRunning :
    (s t : MessageState)
    → IsRunning s
    → SameTools s t
    → Holding t (all_hold s.tool_calls)
    → IsRunning t
same-IsRunning s t w same held = record {
  holding = subst (λ tools. Holding t (all_hold tools)) (sym same.tools) held;
  unique = subst (λ tools. Unique tools) (sym same.tools) w.unique;
  unclosed = λ k tool e. w.unclosed k tool (ap (get k) (sym same.tools) ∙ e);
  live = same.failed ∙ w.live;
  going = same.terminal ∙ w.going;
}

some_inj : {a b : ToolState} → ◌≡◌ {A = Option ToolState} (some a) (some b) → a ≡ b
some_inj e = cc

-- what is kept of a tool that is looked up, or new
share-holds :
    (i : ℕ) (call : Call) (found : Option ToolState)
    → holds i (add_call call (tool_or_fresh found))
      ≡ share (λ (k : ℕ) (tool : ToolState). holds i tool) call.index found
share-holds i call none = refl
share-holds i call (some tool) = refl

found-unclosed :
    (s : MessageState) (call : Call)
    → IsRunning s
    → (found : Option ToolState) → get call.index s.tool_calls ≡ found
    → (add_call call (tool_or_fresh found)).closed ≡ false
found-unclosed s call w none e = refl
found-unclosed s call w (some tool) e = w.unclosed call.index tool e

stored_unclosed :
    (s t : MessageState) (k j : ℕ) (tool u : ToolState)
    → IsRunning s
    → t.tool_calls ≡ s.tool_calls
    → tool.closed ≡ false
    → (if nat_eq k j then some tool else get j t.tool_calls) ≡ some u
    → u.closed ≡ false
stored_unclosed s t k j tool u w tools open_one e = elim (Bool-cases (nat_eq k j)) [
  | inl here ↦ ap (λ (v : ToolState). v.closed) (sym (some_inj (rw here at e))) ∙ open_one
  | inr other ↦ w.unclosed j u (ap (get j) (sym tools) ∙ (rw other at e))
]

module _ (py_str : Json → Text) where
  store_tool-IsRunning :
      (k : ℕ) (s : MessageState) (x : ToolState × MessageState)
      → IsRunning s
      → IsMid py_str s (all_hold (pop k s.tool_calls)) x
      → IsRunning (store_tool k x)
  store_tool-IsRunning k s (tool, t) w mid =
      let tools : t.tool_calls ≡ s.tool_calls = mid.same.tools in
      record {
        holding = record {
          text_flag = mid.holding.text_flag;
          reasoning_flag = mid.holding.reasoning_flag;
          tracks =
              (Holding-same t _ _
                (λ i.
                  ap (λ d. all_hold (put k tool d) i) tools
                  ∙ sum_of-put-pop (λ (j : ℕ) (u : ToolState). holds i u) k tool s.tool_calls
                      w.unique)
                mid.holding).tracks;
        };
        unique = put-Unique k tool t.tool_calls (subst (λ d. Unique d) (sym tools) w.unique);
        unclosed = λ j u e.
            stored_unclosed s t k j tool u w tools mid.unclosed
              (sym (get-put k j tool t.tool_calls) ∙ e);
        live = mid.same.failed ∙ w.live;
        going = mid.same.terminal ∙ w.going;
      }

  write_call-IsRunning :
      (call : Call) (s : MessageState) → IsRunning s → IsRunning (write_call py_str call s)
  unfolding write_call
  write_call-IsRunning call s w =
      let k = call.index in
      let found = get k s.tool_calls in
      let tool = add_call call (tool_or_fresh found) in
      let rest = all_hold (pop k s.tool_calls) in
      let begun : IsMid py_str s rest (tool, s) = record {
        holding =
            Holding-same s (all_hold s.tool_calls) _
              (λ i. omega (
                arith,
                share-holds i call found,
                sum_of-pop (λ (j : ℕ) (t : ToolState). holds i t) k s.tool_calls w.unique,
              ))
              w.holding;
        same = record { tools = refl; failed = refl; terminal = refl };
        unclosed = found-unclosed s call w found refl;
      } in
      let named = open_if_named-IsMid py_str k tool s rest begun in
      let done_one = push_if_open-IsMid py_str s rest _ named in
      let x = push_if_open (open_if_named py_str k tool s) in store_tool-IsRunning k s x w done_one

  write_calls-IsRunning :
      (calls : List Call) (s : MessageState) → IsRunning s → IsRunning (write_calls py_str calls s)
  unfolding write_calls
  write_calls-IsRunning [] s w = w
  write_calls-IsRunning (call ∷ calls) s w =
      write_calls-IsRunning calls _ (write_call-IsRunning call s w)

write_content-IsRunning :
    (content : Option Text) (s : MessageState) → IsRunning s → IsRunning (write_content content s)
write_content-IsRunning none s w = w
write_content-IsRunning (some text) s w =
    let quiet = close_reasoning_if_open s in
    same-IsRunning s _ w
      (SameTools-trans s quiet _ (close_reasoning-SameTools s) (write_text-SameTools text quiet))
      (write_text-Holding (all_hold s.tool_calls) text quiet
        (close_reasoning_if_open-Holding (all_hold s.tool_calls) s w.holding))

write_reasoning_if-IsRunning :
    (reasoning : Option Text) (s : MessageState)
    → IsRunning s
    → IsRunning (write_reasoning_if reasoning s)
write_reasoning_if-IsRunning none s w = w
write_reasoning_if-IsRunning (some text) s w =
    same-IsRunning s _ w (write_reasoning-SameTools text s)
      (write_reasoning-Holding (all_hold s.tool_calls) text s w.holding)

noted-IsRunning :
    (usage : Option Fields) (reason : Text) (s : MessageState)
    → IsRunning s
    → IsRunning (record s { usage = usage; stop_reason = reason })
noted-IsRunning usage reason s w = record {
  holding = record {
    text_flag = w.holding.text_flag;
    reasoning_flag = w.holding.reasoning_flag;
    tracks = w.holding.tracks;
  };
  unique = w.unique;
  unclosed = w.unclosed;
  live = w.live;
  going = w.going;
}

module _ (py_str : Json → Text) where
  pub write_chat_delta-IsRunning :
      (chunk : Chunk) (s : MessageState) → IsRunning s → IsRunning (write_chat_delta py_str chunk s)
  unfolding write_chat_delta
  write_chat_delta-IsRunning chunk s w = write_calls-IsRunning py_str chunk.calls _ (
      write_content-IsRunning chunk.content _
        (write_reasoning_if-IsRunning chunk.reasoning _ (noted-IsRunning _ _ s w)))
