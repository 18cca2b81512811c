-- ===== src/MessageStream/Blocks.antt =====
-- The blocks of a message state: text and reasoning.
pub mod Tools
pub mod Deltas
pub mod Closing
use mathlib.Core.Path.{subst}
use codex_shim.Prelude.{
  ℕ, suc, ◌+◌, ◌≤◌, ◌<◌, ◌≡◌, refl, sym, ap, ◌∙◌, Bool, true, false, Option, none, some, List, [],
  ◌∷◌, Text, arith, nat_eq, Bool-cases, Option-cases, inl, inr, if◌then◌else◌, on_true, on_false,
  on_none, on_some,
}
use codex_shim.Emitters.Terminals.{one_if}
use codex_shim.MessageStream.{
  Event, Delta, text_delta, thinking_delta, block_start, block_delta, block_stop, text_block,
  thinking_block, MessageState, write, write_text, close_text, write_reasoning, close_reasoning,
  close_reasoning_if_open, close_text_if_open,
}
use codex_shim.MessageStream.Protocol.{Tracks, Tracks-same, Tracks-start, Tracks-delta, Tracks-stop}

abbrev pub is_at : ℕ → Option ℕ → ℕ
is_at i none = 0
is_at i (some j) = one_if (nat_eq j i)

abbrev pub is_some : Option ℕ → Bool
is_some none = false
is_some (some i) = true

-- The blocks that are open are those of the text, of the reasoning, and those that the tools hold.
pub record Holding (s : MessageState) (tools : ℕ → ℕ) : Type 0 where
  pub text_flag : s.text_open ≡ is_some s.text_index
  pub reasoning_flag : s.reasoning_open ≡ is_some s.reasoning_index
  pub tracks :
      Tracks s.written s.next_index
        (λ i. is_at i s.text_index + is_at i s.reasoning_index + tools i)

at_itself : (i : ℕ) → one_if (nat_eq i i) ≡ 1
at_itself i = ground arith

module _ (tools : ℕ → ℕ) where
  -- A delta of a block that is held.
  pub delta-Holding :
      (s : MessageState) (i : ℕ) (delta : Delta)
      → Holding s tools
      → 0 < is_at i s.text_index + is_at i s.reasoning_index + tools i
      → Holding (write (block_delta i delta) s) tools
  delta-Holding s i delta w held = record {
    text_flag = w.text_flag;
    reasoning_flag = w.reasoning_flag;
    tracks = Tracks-delta s.written s.next_index _ i delta w.tracks held;
  }

  pub write_text-Holding :
      (text : Text) (s : MessageState) → Holding s tools → Holding (write_text text s) tools
  unfolding write_text
  write_text-Holding text s w = elim (Option-cases s.text_index) [
    | inl absent ↦
        let i = s.next_index in
        let opened = record s {
          text_index = some i;
          next_index = i + 1;
          text_open = true;
          written = block_start i text_block ∷ s.written;
        } in
        let started : Holding opened tools = record {
          text_flag = refl;
          reasoning_flag = w.reasoning_flag;
          tracks =
              Tracks-same _ (i + 1) _ _ (λ j. omega (arith, ap (is_at j) absent))
                (Tracks-start s.written i _ text_block w.tracks);
        } in
        on_none (λ t. Holding t tools) absent _ _
          (delta-Holding opened i (text_delta text) started (omega (arith, at_itself i)))
    | inr (i, here) ↦
        on_some (λ t. Holding t tools) i here _ _
          (delta-Holding s i (text_delta text) w (omega (arith, ap (is_at i) here, at_itself i)))
  ]

  pub write_reasoning-Holding :
      (text : Text) (s : MessageState) → Holding s tools → Holding (write_reasoning text s) tools
  unfolding write_reasoning
  write_reasoning-Holding text s w = elim (Option-cases s.reasoning_index) [
    | inl absent ↦
        let i = s.next_index in
        let opened = record s {
          reasoning_index = some i;
          next_index = i + 1;
          reasoning_open = true;
          written = block_start i thinking_block ∷ s.written;
        } in
        let started : Holding opened tools = record {
          text_flag = w.text_flag;
          reasoning_flag = refl;
          tracks =
              Tracks-same _ (i + 1) _ _ (λ j. omega (arith, ap (is_at j) absent))
                (Tracks-start s.written i _ thinking_block w.tracks);
        } in
        on_none (λ t. Holding t tools) absent _ _
          (delta-Holding opened i (thinking_delta text) started (omega (arith, at_itself i)))
    | inr (i, here) ↦
        on_some (λ t. Holding t tools) i here _ _
          (delta-Holding s i (thinking_delta text) w
            (omega (arith, ap (is_at i) here, at_itself i)))
  ]

  pub close_text-Holding : (s : MessageState) → Holding s tools → Holding (close_text s) tools
  unfolding close_text
  close_text-Holding s w = elim (Option-cases s.text_index) [
    | inl absent ↦ on_none (λ t. Holding t tools) absent _ _ w
    | inr (i, here) ↦
        on_some (λ t. Holding t tools) i here _ _
          (record {
            text_flag = refl;
            reasoning_flag = w.reasoning_flag;
            tracks =
                Tracks-stop s.written s.next_index _ _ i w.tracks
                  (λ j. omega (arith, ap (is_at j) here));
          })
  ]

  pub close_reasoning-Holding :
      (s : MessageState) → Holding s tools → Holding (close_reasoning s) tools
  unfolding close_reasoning
  close_reasoning-Holding s w = elim (Option-cases s.reasoning_index) [
    | inl absent ↦ on_none (λ t. Holding t tools) absent _ _ w
    | inr (i, here) ↦
        on_some (λ t. Holding t tools) i here _ _
          (record {
            text_flag = w.text_flag;
            reasoning_flag = refl;
            tracks =
                Tracks-stop s.written s.next_index _ _ i w.tracks
                  (λ j. omega (arith, ap (is_at j) here));
          })
  ]

  if-Holding :
      (b : Bool) (t s : MessageState)
      → Holding t tools
      → Holding s tools
      → Holding (if b then t else s) tools
  if-Holding true t s v w = v
  if-Holding false t s v w = w

  pub close_reasoning_if_open-Holding :
      (s : MessageState) → Holding s tools → Holding (close_reasoning_if_open s) tools
  close_reasoning_if_open-Holding s w =
      if-Holding s.reasoning_open _ s (close_reasoning-Holding s w) w

  pub close_text_if_open-Holding :
      (s : MessageState) → Holding s tools → Holding (close_text_if_open s) tools
  close_text_if_open-Holding s w = if-Holding s.text_open _ s (close_text-Holding s w) w
