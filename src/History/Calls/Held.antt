-- ===== src/History/Calls/Held.antt =====
-- A call of the input is held from its item on.
use codex_shim.Prelude.{◌≡◌, inl, inr, true, List, [], ◌∷◌, Text, Text-Eq, text_eq_iff, mem, arith}
use codex_shim.Prelude.Dict.{Dict}
use codex_shim.Json.{Fields}
use codex_shim.History.{Contents, History, flush}
use codex_shim.History.Conversion.{
  Kind, chat_message, input_part, computer_output, tool_call, tool_output, web_search, search_call,
  search_output, mcp_call, compaction_item, agent_item, reasoning_item, other_item, convert_kind,
}
use codex_shim.History.Parts.{pending_call, history_call, take_web_search}
use codex_shim.History.Calls.Flushes.{IsOrdered, flush-IsOrdered}
use codex_shim.History.Calls.Order.{pending_call-IsOrdered}
use codex_shim.History.Calls.Searches.{
  kind_calls, last-pending, IsHeld, flush-IsHeld, flushed-IsHeld, pending_call-IsHeld,
  place_output-IsHeld,
}

nowhere : (k : Text) → mem k [] ≡ true → ⊥
unfolding mem
nowhere k e = cc

module _ (c : Contents) (free : List Text) where
  take_web_search-IsHeld :
      (k : Text) (d : Fields) (h : History)
      → IsOrdered c.py_str free h
      → IsHeld c.py_str free k h
      → IsHeld c.py_str free k (take_web_search c d h)
  unfolding take_web_search
  take_web_search-IsHeld k d h w held =
      let s = flush c.py_str h in
      flushed-IsHeld c.py_str free k _ (pending_call _ s)
        (pending_call-IsOrdered c.py_str free _ s (flush-IsOrdered c.py_str free h w))
        (pending_call-IsHeld c.py_str free k _ s (inl (flush-IsHeld c.py_str free k h w held)))

  pub convert_kind-IsHeld :
      (kind : Kind) (names : Dict Text Text) (k : Text) (d : Fields) (h : History)
      → IsOrdered c.py_str free h
      → IsHeld c.py_str free k h
      → IsHeld c.py_str free k (convert_kind c kind names d h)
  unfolding convert_kind
  convert_kind-IsHeld kind names k d h w held =
      let s = flush c.py_str h in
      elim kind as (λ j. IsHeld c.py_str free k (convert_kind c j names d h)) [
        | tool_call ↦ pending_call-IsHeld c.py_str free k _ h held
        | tool_output ↦ place_output-IsHeld c.py_str free k _ _ h w held
        | web_search ↦ take_web_search-IsHeld k d h w held
        | search_call ↦
            pending_call-IsHeld c.py_str free k _ s (inl (flush-IsHeld c.py_str free k h w held))
        | mcp_call ↦ flushed-IsHeld c.py_str free k _ h w held
        | compaction_item ↦ flushed-IsHeld c.py_str free k _ h w held
        | agent_item ↦ flushed-IsHeld c.py_str free k _ h w held
        | chat_message ↦ flushed-IsHeld c.py_str free k _ h w held
        | input_part ↦ flushed-IsHeld c.py_str free k _ h w held
        | computer_output ↦ flushed-IsHeld c.py_str free k _ h w held
        | search_output ↦ flushed-IsHeld c.py_str free k _ h w held
        | reasoning_item ↦ flushed-IsHeld c.py_str free k _ h w held
        | other_item ↦ held
      ]

  only : (k j : Text) → mem k (j ∷ []) ≡ true → j ≡ k
  unfolding mem
  only k j e = (text_eq_iff j k).0 (ground (arith, e))

  pub convert_kind-calls :
      (kind : Kind) (names : Dict Text Text) (k : Text) (d : Fields) (h : History)
      → mem k (kind_calls c kind d) ≡ true
      → IsHeld c.py_str free k (convert_kind c kind names d h)
  unfolding convert_kind history_call
  convert_kind-calls tool_call names k d h e =
      inr (last-pending c.py_str k (history_call c d) h.pending (only k _ e))
  convert_kind-calls search_call names k d h e =
      inr (last-pending c.py_str k _ (flush c.py_str h).pending (only k _ e))
  convert_kind-calls tool_output names k d h e = absurd (nowhere k e)
  convert_kind-calls web_search names k d h e = absurd (nowhere k e)
  convert_kind-calls mcp_call names k d h e = absurd (nowhere k e)
  convert_kind-calls compaction_item names k d h e = absurd (nowhere k e)
  convert_kind-calls agent_item names k d h e = absurd (nowhere k e)
  convert_kind-calls chat_message names k d h e = absurd (nowhere k e)
  convert_kind-calls input_part names k d h e = absurd (nowhere k e)
  convert_kind-calls computer_output names k d h e = absurd (nowhere k e)
  convert_kind-calls search_output names k d h e = absurd (nowhere k e)
  convert_kind-calls reasoning_item names k d h e = absurd (nowhere k e)
  convert_kind-calls other_item names k d h e = absurd (nowhere k e)
