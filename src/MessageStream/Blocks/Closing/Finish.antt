-- ===== src/MessageStream/Blocks/Closing/Finish.antt =====
-- When the blocks of a message are closed, none is open.
use mathlib.Core.Path.{subst}
use codex_shim.Prelude.{
  ℕ, ◌≡◌, sym, ap, ◌∙◌, Bool, none, some, [], arith, Text, Bool-cases, inl, inr,
}
use codex_shim.Prelude.Dict.{get, Unique}
use codex_shim.Prelude.Dict.Sums.{sum_of-zero}
use codex_shim.Json.{Json}
use codex_shim.MessageStream.{
  ℕ-Eq, ToolState, MessageState, close_text, close_reasoning, close_reasoning_if_open,
  close_text_if_open,
}
use codex_shim.MessageStream.Turn.{close_blocks, sorted_indices}
use codex_shim.MessageStream.Protocol.{ends, NoneOpen, IsProtocol}
use codex_shim.MessageStream.Blocks.{
  Holding, is_at, is_some, close_text_if_open-Holding, close_reasoning_if_open-Holding,
}
use codex_shim.MessageStream.Blocks.Tools.{
  holds, all_hold, SameTools-trans, close_text-SameTools, close_reasoning-SameTools,
}
use codex_shim.MessageStream.Blocks.Deltas.{IsRunning}
use codex_shim.MessageStream.Blocks.Closing.{sorted_indices-key}
use codex_shim.MessageStream.Blocks.Closing.Loop.{IsThorough, IsClosing, close_tools-IsClosing}

-- When all are visited, nothing is open.
IsClosing-NoneOpen : (s : MessageState) → IsClosing s [] → NoneOpen s.written
IsClosing-NoneOpen s w i =
    let zero_at : (k : ℕ) (tool : ToolState) → get k s.tool_calls ≡ some tool → holds i tool ≡ 0 =
      λ k tool at. elim (Bool-cases tool.is_open) [
        | inl opened ↦ absurd (elim (w.listed k tool at opened) [ ])
        | inr shut ↦ ground (arith, shut)
      ] in
    let tools_zero : all_hold s.tool_calls i ≡ 0 =
      sum_of-zero (λ (k : ℕ) (t : ToolState). holds i t) s.tool_calls w.unique zero_at in
    let text_zero : is_at i s.text_index ≡ 0 = ap (is_at i) w.no_text in
    let reasoning_zero : is_at i s.reasoning_index ≡ 0 = ap (is_at i) w.no_reasoning in
    ground (arith, tools_zero, text_zero, reasoning_zero, w.holding.tracks.holds i)

text_closed :
    (s : MessageState)
    → s.text_open ≡ is_some s.text_index
    → (close_text_if_open s).text_index ≡ none
unfolding close_text
text_closed s flag = ground (arith, flag)

reasoning_closed :
    (s : MessageState)
    → s.reasoning_open ≡ is_some s.reasoning_index
    → (close_reasoning_if_open s).reasoning_index ≡ none
unfolding close_reasoning
reasoning_closed s flag = ground (arith, flag)

close_text-reasoning :
    (s : MessageState) → (close_text_if_open s).reasoning_index ≡ s.reasoning_index
unfolding close_text
close_text-reasoning s = ground arith

module _ (py_str : Json → Text) where
  -- The blocks follow the protocol, none is open, and the message has not ended.
  pub close_blocks-closed :
      (wanted : ToolState → Bool)
      → IsThorough wanted
      → (s : MessageState) → IsRunning s
      → let closed = close_blocks py_str wanted s in
        NoneOpen closed.written × IsProtocol closed.written × (ends closed.written ≡ 0)
  unfolding close_blocks
  close_blocks-closed wanted thorough s w =
      let quiet = close_reasoning_if_open s in
      let silent = close_text_if_open quiet in
      let tools = all_hold s.tool_calls in
      let held_quiet = close_reasoning_if_open-Holding tools s w.holding in
      let held = close_text_if_open-Holding tools quiet held_quiet in
      let same =
        SameTools-trans s quiet silent (close_reasoning-SameTools s) (close_text-SameTools quiet) in
      let start : IsClosing silent (sorted_indices silent.tool_calls) = record {
        holding = subst (λ d. Holding silent (all_hold d)) (sym same.tools) held;
        unique = subst (λ d. Unique d) (sym same.tools) w.unique;
        no_text = text_closed quiet held_quiet.text_flag;
        no_reasoning = close_text-reasoning quiet ∙ reasoning_closed s w.holding.reasoning_flag;
        settled = λ k tool e. ground (arith, w.unclosed k tool (ap (get k) (sym same.tools) ∙ e));
        listed = λ k tool e opened. sorted_indices-key k tool silent.tool_calls e;
      } in
      let finished =
        close_tools-IsClosing py_str wanted thorough (sorted_indices silent.tool_calls) silent
          start in
      (
        IsClosing-NoneOpen _ finished,
        finished.holding.tracks.follows,
        finished.holding.tracks.unended,
      )
