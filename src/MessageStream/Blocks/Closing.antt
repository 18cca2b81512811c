-- ===== src/MessageStream/Blocks/Closing.antt =====
-- What closing a tool of a message keeps.
pub mod Loop
pub mod Finish
use mathlib.Core.Path.{subst}
use mathlib.Core.List.{Memᴰ}
use mathlib.Core.List.Memᴰ.{head, tail}
use codex_shim.Prelude.{
  ℕ, suc, ◌+◌, ◌≡◌, refl, sym, ap, ◌∙◌, Bool, true, false, not, ◌&&◌, Option, none, some, List, [],
  ◌∷◌, arith, nat_eq, nat_eq_iff, leb, ltb, length, Text, Bool-cases, Option-cases, inl, inr,
  if◌then◌else◌, on_true, on_false,
}
use codex_shim.Prelude.Dict.{
  Dict, get, put, pop, Unique, put-Unique, get-put, share, sum_of, sum_of-pop,
}
use codex_shim.Prelude.Dict.Sums.{sum_of-put-pop, sum_of-zero}
use codex_shim.Json.{Json}
use codex_shim.Emitters.Terminals.{one_if}
use codex_shim.MessageStream.{
  ℕ-Eq, ToolState, fresh_tool, MessageState, block_stop, write, close_text, close_reasoning,
  close_reasoning_if_open, close_text_if_open,
}
use codex_shim.MessageStream.Turn.{
  push_arguments, open_tool, store_tool, tool_or_fresh, close_tool, close_tools, close_blocks,
  insert_index, sorted_indices, not_closed, open_not_closed,
}
use codex_shim.MessageStream.Protocol.{is_open, NoneOpen, IsProtocol, Tracks-stop}
use codex_shim.MessageStream.Blocks.{
  Holding, is_at, is_some, close_text_if_open-Holding, close_reasoning_if_open-Holding,
}
use codex_shim.MessageStream.Blocks.Tools.{
  holds, all_hold, SameTools, SameTools-trans, close_text-SameTools, close_reasoning-SameTools,
  Holding-same, open_tool-Holding, push_arguments-Holding,
}
use codex_shim.MessageStream.Blocks.Deltas.{IsRunning}

-- Each key of the tools is among the sorted ones.
insert_index-here : (k : ℕ) (js : List ℕ) → Memᴰ k (insert_index k js)
unfolding insert_index
insert_index-here k [] = head refl
insert_index-here k (j ∷ js) = elim (Bool-cases (leb k j)) [
  | inl le ↦ on_true (λ xs. Memᴰ k xs) le _ _ (head refl)
  | inr gt ↦ on_false (λ xs. Memᴰ k xs) gt _ _ (tail (insert_index-here k js))
]

insert_index-kept : (i k : ℕ) (js : List ℕ) → Memᴰ k js → Memᴰ k (insert_index i js)
unfolding insert_index
insert_index-kept i k [] m = elim m [ ]
insert_index-kept i k (j ∷ js) m = elim (Bool-cases (leb i j)) [
  | inl le ↦ on_true (λ xs. Memᴰ k xs) le _ _ (tail m)
  | inr gt ↦
      on_false (λ xs. Memᴰ k xs) gt _ _
        (elim m [ head e ↦ head e | tail n ↦ tail (insert_index-kept i k js n) ])
]

pub sorted_indices-key :
    (k : ℕ) (tool : ToolState) (d : Dict ℕ ToolState)
    → get k d ≡ some tool
    → Memᴰ k (sorted_indices d)
unfolding sorted_indices get
sorted_indices-key k tool [] e = cc
sorted_indices-key k tool ((j, u) ∷ d) e = elim (Bool-cases (nat_eq j k)) [
  | inl here ↦
      subst (λ x. Memᴰ k (insert_index x (sorted_indices d))) (sym ((nat_eq_iff j k).0 here))
        (insert_index-here k (sorted_indices d))
  | inr other ↦
      insert_index-kept j k (sorted_indices d) (sorted_indices-key k tool d (rw other at e))
]

-- The tools, and no text or reasoning block, are as before.
pub record Kept (s t : MessageState) : Type 0 where
  pub tools : t.tool_calls ≡ s.tool_calls
  pub text : t.text_index ≡ s.text_index
  pub reasoning : t.reasoning_index ≡ s.reasoning_index

stop_tool-Holding :
    (tool : ToolState) (s : MessageState) (rest : ℕ → ℕ)
    → tool.is_open ≡ true
    → Holding s (λ i. rest i + holds i tool)
    → Holding (write (block_stop tool.block_index) s) rest
stop_tool-Holding tool s rest opened w = record {
  text_flag = w.text_flag;
  reasoning_flag = w.reasoning_flag;
  tracks =
      Tracks-stop s.written s.next_index _ _ tool.block_index w.tracks
        (λ j. ground (arith, opened));
}

push_arguments-open :
    (tool : ToolState) (s : MessageState)
    → tool.is_open ≡ true
    → (push_arguments tool s).0.is_open ≡ true
unfolding push_arguments
push_arguments-open tool s e = ground (arith, e)

push_arguments-Kept :
    (tool : ToolState) (s t : MessageState) → Kept s t → Kept s (push_arguments tool t).1
unfolding push_arguments
push_arguments-Kept tool s t w = elim (Bool-cases (ltb tool.emitted (length tool.arguments))) [
  | inl more ↦
      on_true (λ (r : ToolState × MessageState). Kept s r.1) more _ _
        (record { tools = w.tools; text = w.text; reasoning = w.reasoning })
  | inr all_sent ↦ on_false (λ (r : ToolState × MessageState). Kept s r.1) all_sent _ _ w
]

module _ (py_str : Json → Text) where
  pub close_tool-Kept :
      (k : ℕ) (tool : ToolState) (s : MessageState) → Kept s (close_tool py_str k tool s).1
  unfolding close_tool open_tool
  close_tool-Kept k tool s =
      let opened = open_tool py_str k tool s in
      let start : Kept s opened.1 = record { tools = refl; text = refl; reasoning = refl } in
      let pushed = push_arguments-Kept opened.0 s opened.1 start in
      let Good =
        λ (r : ToolState × MessageState). Kept s (write (block_stop r.0.block_index) r.1) in
      elim (Bool-cases tool.is_open) [
        | inl was_open ↦
            on_true Good was_open _ _ (record { tools = refl; text = refl; reasoning = refl })
        | inr shut ↦
            on_false Good shut _ _
              (record { tools = pushed.tools; text = pushed.text; reasoning = pushed.reasoning })
      ]

  pub close_tool-Holding :
      (k : ℕ) (tool : ToolState) (s : MessageState) (rest : ℕ → ℕ)
      → Holding s (λ i. rest i + holds i tool)
      → Holding (close_tool py_str k tool s).1 rest
  unfolding close_tool
  close_tool-Holding k tool s rest w =
      let opened = open_tool py_str k tool s in
      let pushed = push_arguments opened.0 opened.1 in
      let Good =
        λ (r : ToolState × MessageState). Holding (write (block_stop r.0.block_index) r.1) rest in
      elim (Bool-cases tool.is_open) [
        | inl was_open ↦ on_true Good was_open _ _ (stop_tool-Holding tool s rest was_open w)
        | inr shut ↦
            let alone : Holding s rest = Holding-same s _ rest (λ i. ground (arith, shut)) w in
            let now_open : opened.0.is_open ≡ true = unfold open_tool in refl in
            on_false Good shut _ _ (
              stop_tool-Holding pushed.0 pushed.1 rest
                (push_arguments-open opened.0 opened.1 now_open)
                (push_arguments-Holding py_str opened.0 opened.1 rest now_open
                  (open_tool-Holding py_str k tool s rest alone)))
      ]
