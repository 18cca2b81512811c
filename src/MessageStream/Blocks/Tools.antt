-- ===== src/MessageStream/Blocks/Tools.antt =====
-- The blocks of a message state: tools, and whole chunks.
use codex_shim.Prelude.{
  ℕ, ◌+◌, ◌≡◌, ◌∙◌, true, false, not, ◌&&◌, Text, arith, nat_eq, ltb, length, is_empty, Bool-cases,
  inl, inr, on_true, on_false,
}
use codex_shim.Prelude.Dict.{Dict, sum_of}
use codex_shim.Json.{Json}
use codex_shim.Emitters.Terminals.{one_if}
use codex_shim.MessageStream.{
  ℕ-Eq, ToolState, MessageState, write_text, close_text, write_reasoning, close_reasoning,
  close_reasoning_if_open, close_text_if_open,
}
use codex_shim.MessageStream.Turn.{push_arguments, open_tool, open_if_named, push_if_open}
use codex_shim.MessageStream.Protocol.{Tracks-same, Tracks-start}
use codex_shim.MessageStream.Blocks.{
  Holding, delta-Holding, close_text_if_open-Holding, close_reasoning_if_open-Holding,
}

-- What a tool holds, and what all of a state's tools hold.
abbrev pub holds : ℕ → ToolState → ℕ
holds i tool = one_if (tool.is_open && nat_eq tool.block_index i)

abbrev pub all_hold : Dict ℕ ToolState → ℕ → ℕ
all_hold tools i = sum_of (λ k tool. holds i tool) tools

-- Only events and blocks changed.
pub record SameTools (s t : MessageState) : Type 0 where
  pub tools : t.tool_calls ≡ s.tool_calls
  pub failed : t.failed ≡ s.failed
  pub terminal : t.terminal_emitted ≡ s.terminal_emitted

pub close_text-SameTools : (s : MessageState) → SameTools s (close_text_if_open s)
unfolding close_text
close_text-SameTools s = ground arith

pub close_reasoning-SameTools : (s : MessageState) → SameTools s (close_reasoning_if_open s)
unfolding close_reasoning
close_reasoning-SameTools s = ground arith

pub write_text-SameTools : (text : Text) (s : MessageState) → SameTools s (write_text text s)
unfolding write_text
write_text-SameTools text s = ground arith

pub write_reasoning-SameTools :
    (text : Text) (s : MessageState) → SameTools s (write_reasoning text s)
unfolding write_reasoning
write_reasoning-SameTools text s = ground arith

pub SameTools-trans : (s t u : MessageState) → SameTools s t → SameTools t u → SameTools s u
SameTools-trans s t u v w = record {
  tools = w.tools ∙ v.tools;
  failed = w.failed ∙ v.failed;
  terminal = w.terminal ∙ v.terminal;
}

pub Holding-same :
    (s : MessageState) (tools other : ℕ → ℕ)
    → ((i : ℕ) → other i ≡ tools i)
    → Holding s tools
    → Holding s other
Holding-same s tools other e w = record {
  text_flag = w.text_flag;
  reasoning_flag = w.reasoning_flag;
  tracks = Tracks-same s.written s.next_index _ _ (λ i. omega (arith, e i)) w.tracks;
}

pub push_arguments-same :
    (tool : ToolState) (s t : MessageState) → SameTools s t → SameTools s (push_arguments tool t).1
unfolding push_arguments
push_arguments-same tool s t w = elim (Bool-cases (ltb tool.emitted (length tool.arguments))) [
  | inl more ↦
      on_true (λ (r : ToolState × MessageState). SameTools s r.1) more _ _
        (record { tools = w.tools; failed = w.failed; terminal = w.terminal })
  | inr all_sent ↦ on_false (λ (r : ToolState × MessageState). SameTools s r.1) all_sent _ _ w
]

push_arguments-unclosed :
    (tool : ToolState) (t : MessageState)
    → tool.closed ≡ false
    → (push_arguments tool t).0.closed ≡ false
unfolding push_arguments
push_arguments-unclosed tool t e = ground (arith, e)

module _ (py_str : Json → Text) where
  pub open_tool-same :
      (index : ℕ) (tool : ToolState) (s t : MessageState)
      → SameTools s t
      → SameTools s (open_tool py_str index tool t).1
  unfolding open_tool
  open_tool-same index tool s t w = record {
    tools = w.tools;
    failed = w.failed;
    terminal = w.terminal;
  }

  pub open_tool-Holding :
      (index : ℕ) (tool : ToolState) (s : MessageState) (tools : ℕ → ℕ)
      → Holding s tools
      → let opened = open_tool py_str index tool s in
        Holding opened.1 (λ i. tools i + holds i opened.0)
  unfolding open_tool
  open_tool-Holding index tool s tools w = record {
    text_flag = w.text_flag;
    reasoning_flag = w.reasoning_flag;
    tracks =
        Tracks-same _ (s.next_index + 1) _ _ (λ j. omega arith)
          (Tracks-start s.written s.next_index _ _ w.tracks);
  }

  -- What is written of a tool's arguments belongs to its block.
  pub push_arguments-Holding :
      (tool : ToolState) (s : MessageState) (tools : ℕ → ℕ)
      → tool.is_open ≡ true
      → Holding s (λ i. tools i + holds i tool)
      → let pushed = push_arguments tool s in Holding pushed.1 (λ i. tools i + holds i pushed.0)
  unfolding push_arguments
  push_arguments-Holding tool s tools opened w =
      let Good = λ (r : ToolState × MessageState). Holding r.1 (λ i. tools i + holds i r.0) in
      elim (Bool-cases (ltb tool.emitted (length tool.arguments))) [
        | inl more ↦
            on_true Good more _ _ (delta-Holding _ s tool.block_index _ w (ground (arith, opened)))
        | inr all_sent ↦ on_false Good all_sent _ _ w
      ]

  -- In the middle of a call: the tool is out of the dictionary, and `rest` is what the others hold.
  pub record IsMid (s : MessageState) (rest : ℕ → ℕ) (x : ToolState × MessageState) : Type 0 where
    pub holding : Holding x.1 (λ i. rest i + holds i x.0)
    pub same : SameTools s x.1
    pub unclosed : x.0.closed ≡ false

  pub open_if_named-IsMid :
      (index : ℕ) (tool : ToolState) (s : MessageState) (rest : ℕ → ℕ)
      → IsMid s rest (tool, s)
      → IsMid s rest (open_if_named py_str index tool s)
  unfolding open_if_named
  open_if_named-IsMid index tool s rest w =
      elim (Bool-cases (not tool.is_open && not (is_empty tool.name))) [
        | inl named ↦
            let quiet = close_reasoning_if_open s in
            let silent = close_text_if_open quiet in
            let shut : tool.is_open ≡ false = ground (arith, named) in
            let alone : Holding s rest =
              Holding-same s _ rest (λ i. ground (arith, shut)) w.holding in
            on_true (IsMid s rest) named _ _ (record {
              holding = open_tool-Holding index tool silent rest (
                  close_text_if_open-Holding rest quiet
                    (close_reasoning_if_open-Holding rest s alone));
              same = open_tool-same index tool s silent (
                  SameTools-trans s quiet silent (close_reasoning-SameTools s)
                    (close_text-SameTools quiet));
              unclosed = unfold open_tool in w.unclosed;
            })
        | inr kept ↦ on_false (IsMid s rest) kept _ _ w
      ]

  pub push_if_open-IsMid :
      (s : MessageState) (rest : ℕ → ℕ) (x : ToolState × MessageState)
      → IsMid s rest x
      → IsMid s rest (push_if_open x)
  push_if_open-IsMid s rest (tool, t) w = elim (Bool-cases tool.is_open) [
    | inl opened ↦ on_true (IsMid s rest) opened _ _ (record {
      holding = push_arguments-Holding tool t rest opened w.holding;
      same = push_arguments-same tool s t w.same;
      unclosed = push_arguments-unclosed tool t w.unclosed;
    })
    | inr shut ↦ on_false (IsMid s rest) shut _ _ w
  ]
