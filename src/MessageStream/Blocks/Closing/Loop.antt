-- ===== src/MessageStream/Blocks/Closing/Loop.antt =====
-- What is left open when the blocks of a message are closed: nothing.
use mathlib.Core.Path.{subst}
use mathlib.Core.List.{Memᴰ}
use mathlib.Core.List.Memᴰ.{head, tail}
use codex_shim.Prelude.{
  ℕ, ◌+◌, ◌≡◌, refl, sym, ap, ◌∙◌, Bool, true, false, ◌&&◌, Option, none, some, List, [], ◌∷◌,
  arith, nat_eq, nat_eq_iff, Text, Bool-cases, inl, inr, if◌then◌else◌, on_true, on_false,
}
use codex_shim.Prelude.Dict.{get, put, pop, Unique, put-Unique, get-put, share, sum_of-pop}
use codex_shim.Prelude.Dict.Sums.{sum_of-put-pop}
use codex_shim.Json.{Json}
use codex_shim.MessageStream.{ℕ-Eq, ToolState, fresh_tool, MessageState}
use codex_shim.MessageStream.Turn.{
  store_tool, tool_or_fresh, close_tool, close_tools, not_closed, open_not_closed,
}
use codex_shim.MessageStream.Blocks.{Holding}
use codex_shim.MessageStream.Blocks.Tools.{holds, all_hold, Holding-same}
use codex_shim.MessageStream.Blocks.Closing.{Kept, close_tool-Kept, close_tool-Holding}

-- A test that lets through, of the tools that are not open once closed, only such as are not open.
abbrev pub IsThorough : (ToolState → Bool) → Type 0
IsThorough wanted =
    (tool : ToolState)
    → (tool.closed && tool.is_open) ≡ false
    → wanted tool ≡ false
    → tool.is_open ≡ false

pub not_closed-IsThorough : IsThorough not_closed
not_closed-IsThorough tool settled e = ground (arith, settled, e)

pub open_not_closed-IsThorough : IsThorough open_not_closed
open_not_closed-IsThorough tool settled e = ground (arith, settled, e)

-- Only tools are open, and only such as are still to be visited.
pub record IsClosing (s : MessageState) (left : List ℕ) : Type 0 where
  pub holding : Holding s (all_hold s.tool_calls)
  pub unique : Unique s.tool_calls
  pub no_text : s.text_index ≡ none
  pub no_reasoning : s.reasoning_index ≡ none
  pub settled :
      (k : ℕ) (tool : ToolState)
      → get k s.tool_calls ≡ some tool
      → (tool.closed && tool.is_open) ≡ false
  pub listed :
      (k : ℕ) (tool : ToolState)
      → get k s.tool_calls ≡ some tool
      → tool.is_open ≡ true
      → Memᴰ k left

some_inj : {a b : ToolState} → ◌≡◌ {A = Option ToolState} (some a) (some b) → a ≡ b
some_inj e = cc

settled-fresh :
    (o : Option ToolState) (P : ToolState → Type 0)
    → P fresh_tool
    → ((tool : ToolState) → o ≡ some tool → P tool)
    → P (tool_or_fresh o)
settled-fresh none P new at = new
settled-fresh (some tool) P new at = at tool refl

share-tool :
    (i k : ℕ) (o : Option ToolState)
    → share (λ (j : ℕ) (t : ToolState). holds i t) k o ≡ holds i (tool_or_fresh o)
share-tool i k none = refl
share-tool i k (some tool) = refl

tail_of : (k : ℕ) (j : ℕ) (left : List ℕ) → nat_eq k j ≡ false → Memᴰ j (k ∷ left) → Memᴰ j left
tail_of k j left other (head e) = absurd (ground (arith, other, e))
tail_of k j left other (tail m) = m

-- A tool that is not open is not missed.
skip-IsClosing :
    (k : ℕ) (left : List ℕ) (s : MessageState)
    → IsClosing s (k ∷ left)
    → (tool_or_fresh (get k s.tool_calls)).is_open ≡ false
    → IsClosing s left
skip-IsClosing k left s w shut = record {
  holding = w.holding;
  unique = w.unique;
  no_text = w.no_text;
  no_reasoning = w.no_reasoning;
  settled = w.settled;
  listed = λ j tool at opened. elim (Bool-cases (nat_eq k j)) [
    | inl here ↦
        let at_k : get k s.tool_calls ≡ some tool =
          ap (λ i. get i s.tool_calls) ((nat_eq_iff k j).0 here) ∙ at in
        let same : (tool_or_fresh (get k s.tool_calls)).is_open ≡ tool.is_open =
          ap (λ o. (tool_or_fresh o).is_open) at_k in
        absurd (ground (arith, shut, same, opened))
    | inr other ↦ tail_of k j left other (w.listed j tool at opened)
  ];
}

-- A tool that is closed is not open any more.
store-IsClosing :
    (k : ℕ) (left : List ℕ) (s t : MessageState) (tool : ToolState)
    → IsClosing s (k ∷ left)
    → Kept s t
    → tool.is_open ≡ false
    → Holding t (all_hold (pop k s.tool_calls))
    → IsClosing (store_tool k (tool, t)) left
store-IsClosing k left s t tool w kept shut held =
    let found : (j : ℕ)
        → get j (put k tool t.tool_calls) ≡ (if nat_eq k j then some tool else get j s.tool_calls) =
      λ j.
        get-put k j tool t.tool_calls
        ∙ ap (λ d. if nat_eq k j then some tool else get j d) kept.tools in
    let now =
      Holding-same t _ _
        (λ i.
          ap (λ d. all_hold (put k tool d) i) kept.tools
          ∙ sum_of-put-pop (λ (j : ℕ) (u : ToolState). holds i u) k tool s.tool_calls w.unique
          ∙ ground (arith, shut))
        held in
    record {
      holding = record {
        text_flag = now.text_flag;
        reasoning_flag = now.reasoning_flag;
        tracks = now.tracks;
      };
      unique = put-Unique k tool t.tool_calls (subst (λ d. Unique d) (sym kept.tools) w.unique);
      no_text = kept.text ∙ w.no_text;
      no_reasoning = kept.reasoning ∙ w.no_reasoning;
      settled = λ j u e. elim (Bool-cases (nat_eq k j)) [
        | inl here ↦
            let same : tool ≡ u = some_inj (rw here at (sym (found j) ∙ e)) in
            let shut_u : u.is_open ≡ false = ap (λ (v : ToolState). v.is_open) (sym same) ∙ shut in
            ground (arith, shut_u)
        | inr other ↦ w.settled j u (rw other at (sym (found j) ∙ e))
      ];
      listed = λ j u e opened. elim (Bool-cases (nat_eq k j)) [
        | inl here ↦
            let same : tool ≡ u = some_inj (rw here at (sym (found j) ∙ e)) in
            absurd (ground (arith, shut, ap (λ (v : ToolState). v.is_open) same, opened))
        | inr other ↦ tail_of k j left other (w.listed j u (rw other at (sym (found j) ∙ e)) opened)
      ];
    }

module _ (py_str : Json → Text) where
  close_tool-shut :
      (k : ℕ) (tool : ToolState) (s : MessageState) → (close_tool py_str k tool s).0.is_open ≡ false
  unfolding close_tool
  close_tool-shut k tool s = refl

  pub close_tools-IsClosing :
      (wanted : ToolState → Bool)
      → IsThorough wanted
      → (left : List ℕ) (s : MessageState) → IsClosing s left
      → IsClosing (close_tools py_str wanted left s) []
  unfolding close_tools
  close_tools-IsClosing wanted thorough [] s w = w
  close_tools-IsClosing wanted thorough (k ∷ left) s w =
      let found = get k s.tool_calls in
      let tool = tool_or_fresh found in
      let settled : (tool.closed && tool.is_open) ≡ false =
        settled-fresh found (λ t. (t.closed && t.is_open) ≡ false) refl (w.settled k) in
      let closed = close_tool py_str k tool s in
      let rest = all_hold (pop k s.tool_calls) in
      elim (Bool-cases (wanted tool)) [
        | inl go ↦
            let split =
              Holding-same s (all_hold s.tool_calls) (λ i. rest i + holds i tool)
                (λ i. omega (
                  arith,
                  share-tool i k found,
                  sum_of-pop (λ (j : ℕ) (t : ToolState). holds i t) k s.tool_calls w.unique,
                ))
                w.holding in
            on_true (λ t. IsClosing (close_tools py_str wanted left t) []) go _ _
              (close_tools-IsClosing wanted thorough left (store_tool k closed) (
                store-IsClosing k left s closed.1 closed.0 w (close_tool-Kept py_str k tool s)
                  (close_tool-shut k tool s) (close_tool-Holding py_str k tool s rest split)))
        | inr skip ↦
            on_false (λ t. IsClosing (close_tools py_str wanted left t) []) skip _ _
              (close_tools-IsClosing wanted thorough left s
                (skip-IsClosing k left s w (thorough tool settled skip)))
      ]
