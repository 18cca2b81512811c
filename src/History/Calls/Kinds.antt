-- ===== src/History/Calls/Kinds.antt =====
-- What an item of a kind adds, by the order of calls and outputs.
use codex_shim.Prelude.{◌≡◌, sym, true, ◌||◌, List, [], ◌∷◌, Text, Text-Eq, mem, is_empty, arith}
use mathlib.Core.Path.{subst}
use codex_shim.Prelude.Dict.{Dict}
use codex_shim.Json.{Json, str, obj, Fields}
use codex_shim.History.{ToolCall, tool_result, Contents, History, append, id_text, flush}
use codex_shim.History.Conversion.{
  Kind, chat_message, input_part, computer_output, tool_call, tool_output, web_search, search_call,
  search_output, mcp_call, compaction_item, agent_item, reasoning_item, other_item, convert_kind,
  item_messages,
}
use codex_shim.History.Parts.{
  pending_call, output_messages, take_web_search, web_search_result, mcp_messages,
  compaction_message,
}
use codex_shim.History.Calls.{AreCalled}
use codex_shim.History.Calls.Flushes.{
  ids_of, IsOrdered, append-IsOrdered, flush-IsOrdered, flush-called,
}
use codex_shim.History.Calls.Searches.{searched_id, last-pending}
use codex_shim.History.Calls.Order.{
  id_text-str, pending_call-IsOrdered, place_output-IsOrdered, user_if-AreCalled, agent-AreCalled,
  output-AreCalled, output-AreFor,
}

module _ (c : Contents) (free : List Text) where
  abbrev pub Ordered : History → Type 0
  Ordered h = IsOrdered c.py_str free h

  searched :
      (k : Text) (call : ToolCall) (content : Json) (h : History)
      → Ordered h
      → id_text c.py_str call.id ≡ k
      → Ordered (append (tool_result (str k) content ∷ []) (flush c.py_str (pending_call call h)))
  unfolding AreCalled
  searched k call content h w e =
      let waiting = pending_call call h in
      let pending = pending_call-IsOrdered c.py_str free call h w in
      let called =
        flush-called c.py_str free waiting k pending (last-pending c.py_str k call h.pending e) in
      append-IsOrdered c.py_str free _ (flush c.py_str waiting)
        (flush-IsOrdered c.py_str free waiting pending)
        (
          subst (λ j. (is_empty j || mem j (ids_of c.py_str free (flush c.py_str waiting))) ≡ true)
              (sym (id_text-str c.py_str k)) (ground (arith, called)),
          tt,
        )

  take_web_search-Ordered : (d : Fields) (h : History) → Ordered h → Ordered (take_web_search c d h)
  unfolding take_web_search web_search_result
  take_web_search-Ordered d h w =
      searched _ _ _ (flush c.py_str h) (flush-IsOrdered c.py_str free h w) (id_text-str c.py_str _)

  mcp-AreCalled : (d : Fields) (ids : List Text) → AreCalled c.py_str free ids (mcp_messages c d)
  unfolding mcp_messages AreCalled
  mcp-AreCalled d ids = user_if-AreCalled c.py_str free _ _ ids

  compaction-AreCalled :
      (d : Fields) (ids : List Text) → AreCalled c.py_str free ids (compaction_message c d ∷ [])
  unfolding compaction_message AreCalled
  compaction-AreCalled d ids = tt

  -- The output of a search is that of a call, or listed.
  abbrev pub Fits : Kind → Fields → History → Type 0
  Fits search_output d h =
      (mem (searched_id c d) (ids_of c.py_str free (flush c.py_str h))
        || mem (searched_id c d) free)
      ≡ true
  Fits kind d h = Unit

  pub convert_kind-Ordered :
      (kind : Kind) (names : Dict Text Text) (d : Fields) (h : History)
      → Ordered h
      → Fits kind d h
      → Ordered (convert_kind c kind names d h)
  unfolding convert_kind item_messages AreCalled
  convert_kind-Ordered kind names d h w fits =
      let s = flush c.py_str h in
      let flushed = flush-IsOrdered c.py_str free h w in
      (elim kind as (λ k. Fits k d h → Ordered (convert_kind c k names d h)) [
        | tool_call ↦ λ f. pending_call-IsOrdered c.py_str free _ h w
        | tool_output ↦ λ f.
            place_output-IsOrdered c.py_str free _ (output_messages c names d) h w
              (output-AreCalled c free names d) (output-AreFor c free names d)
        | web_search ↦ λ f. take_web_search-Ordered d h w
        | search_call ↦ λ f. pending_call-IsOrdered c.py_str free _ s flushed
        | mcp_call ↦ λ f.
            append-IsOrdered c.py_str free (mcp_messages c d) s flushed
              (mcp-AreCalled d (ids_of c.py_str free s))
        | compaction_item ↦ λ f.
            append-IsOrdered c.py_str free (compaction_message c d ∷ []) s flushed
              (compaction-AreCalled d (ids_of c.py_str free s))
        | agent_item ↦ λ f.
            append-IsOrdered c.py_str free _ s flushed
              (agent-AreCalled c.py_str free (c.agent_message (obj d)) _)
        | chat_message ↦ λ f. append-IsOrdered c.py_str free _ s flushed tt
        | input_part ↦ λ f. append-IsOrdered c.py_str free _ s flushed tt
        | computer_output ↦ λ f. append-IsOrdered c.py_str free _ s flushed tt
        | search_output ↦ λ f. append-IsOrdered c.py_str free _ s flushed (ground (arith, f), tt)
        | reasoning_item ↦ λ f. append-IsOrdered c.py_str free _ s flushed tt
        | other_item ↦ λ f. w
      ])
        fits
