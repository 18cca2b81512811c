-- ===== src/History/Kept/Whole.antt =====
-- What the messages of a request weigh together.
use codex_shim.Prelude.{ℕ, ◌+◌, ◌≡◌, refl, List, [], ◌∷◌, ◌++◌, Text, Text-Eq, codes, arith}
use codex_shim.Prelude.Dict.{Dict, sum_of}
use codex_shim.Json.{Json, null, bool, int, str, arr, obj, Fields, of_items}
use codex_shim.History.{ToolCall, Message, plain, calling, Contents, History, new_history, flush}
use codex_shim.History.Items.{function_call_name_map, orphan_tool_name}
use codex_shim.History.Conversion.{
  Kind, chat_message, input_part, computer_output, tool_call, tool_output, web_search, search_call,
  search_output, mcp_call, compaction_item, agent_item, reasoning_item, other_item, kind_of,
  convert_kind, item_messages, convert_item, convert_items, orphan_messages, convert,
  responses_input_to_messages,
}
use codex_shim.History.Parts.{pending_call, user, web_search_result, take_web_search}
use codex_shim.History.Kept.{
  total, total-append, put_off, Weighs, append-Weighs, flush-Weighs, place_output-Weighs,
}

module _ (c : Contents) where
  -- The messages that items stand for, in the order of the items.
  unfoldable pub messages_of : Dict Text Text → List Json → List Message
  unfolding item_messages kind_of
  messages_of names [] = []
  messages_of names (str t ∷ items) = user t ∷ messages_of names items
  messages_of names (obj d ∷ items) = item_messages c (kind_of d) names d ++ messages_of names items
  messages_of names (item ∷ items) = messages_of names items

  -- Those of a whole input.
  unfoldable pub input_messages : Json → List Message
  unfolding messages_of function_call_name_map of_items
  input_messages null = []
  input_messages (str t) = user t ∷ []
  input_messages (arr items) =
      messages_of (function_call_name_map c.py_str (of_items items) []) (of_items items)
  input_messages value = plain (str (codes "user")) (c.chat_content value) ∷ []

  module _ (weight : Message → ℕ)
      (light : (calls : List ToolCall) → weight (calling calls) ≡ 0) where
    pending-Weighs :
        (call : ToolCall) (h : History) (n : ℕ)
        → Weighs weight h n
        → Weighs weight (pending_call call h) (n + 0)
    pending-Weighs call h n w = record { unique = w.unique; sum = omega (arith, w.sum) }

    convert_kind-Weighs :
        (kind : Kind) (names : Dict Text Text) (d : Fields) (h : History) (n : ℕ)
        → Weighs weight h n
        → Weighs weight
            (convert_kind c kind names d h)
            (n + total weight (item_messages c kind names d))
    unfolding convert_kind item_messages total take_web_search
    convert_kind-Weighs kind names d h n w =
        let s = flush c.py_str h in
        let flushed = flush-Weighs weight c.py_str light h n w in
        elim kind
          as (λ k.
            Weighs weight (convert_kind c k names d h)
              (n + total weight (item_messages c k names d))) [
                | tool_call ↦ pending-Weighs _ h n w
                | tool_output ↦ place_output-Weighs weight c.py_str light _ _ h n w
                | web_search ↦
                    let waiting = pending-Weighs _ s n flushed in
                    let called = flush-Weighs weight c.py_str light _ (n + 0) waiting in
                    let whole =
                      append-Weighs weight (web_search_result c d ∷ []) _ (n + 0) called in
                    record { unique = whole.unique; sum = omega (arith, whole.sum) }
                | search_call ↦ pending-Weighs _ s n flushed
                | other_item ↦ record { unique = w.unique; sum = omega (arith, w.sum) }
                | mcp_call ↦ append-Weighs weight _ s n flushed
                | compaction_item ↦ append-Weighs weight _ s n flushed
                | agent_item ↦ append-Weighs weight _ s n flushed
                | chat_message ↦ append-Weighs weight _ s n flushed
                | input_part ↦ append-Weighs weight _ s n flushed
                | computer_output ↦ append-Weighs weight _ s n flushed
                | search_output ↦ append-Weighs weight _ s n flushed
                | reasoning_item ↦ append-Weighs weight _ s n flushed
              ]

    convert_items-Weighs :
        (names : Dict Text Text) (items : List Json) (h : History) (n : ℕ)
        → Weighs weight h n
        → Weighs weight (convert_items c names items h) (n + total weight (messages_of names items))
    unfolding convert_items convert_item messages_of total
    convert_items-Weighs names [] h n w = record { unique = w.unique; sum = omega (arith, w.sum) }
    convert_items-Weighs names (str t ∷ items) h n w =
        let first =
          append-Weighs weight (user t ∷ []) (flush c.py_str h) n
            (flush-Weighs weight c.py_str light h n w) in
        let rest = convert_items-Weighs names items _ _ first in
        record { unique = rest.unique; sum = omega (arith, rest.sum) }
    convert_items-Weighs names (obj d ∷ items) h n w =
        let first = convert_kind-Weighs (kind_of d) names d h n w in
        let rest = convert_items-Weighs names items _ _ first in
        record {
          unique = rest.unique;
          sum = omega (
            arith,
            rest.sum,
            total-append weight (item_messages c (kind_of d) names d) (messages_of names items),
          );
        }
    convert_items-Weighs names (null ∷ items) h n w = convert_items-Weighs names items h n w
    convert_items-Weighs names (bool b ∷ items) h n w = convert_items-Weighs names items h n w
    convert_items-Weighs names (int i ∷ items) h n w = convert_items-Weighs names items h n w
    convert_items-Weighs names (arr entries ∷ items) h n w = convert_items-Weighs names items h n w

    orphan-total :
        (name : Text) (d : Dict Text (List Message))
        → total weight (orphan_messages c name d) ≡ put_off weight d
    unfolding orphan_messages total sum_of
    orphan-total name [] = refl
    orphan-total name ((k, messages) ∷ d) = omega (
      arith,
      light _,
      total-append weight messages (orphan_messages c name d),
      orphan-total name d,
    )

    convert-total :
        (advertised : List Text) (items : List Json)
        → total weight (convert c advertised items)
          ≡ total weight (messages_of (function_call_name_map c.py_str items []) items)
    unfolding convert total sum_of
    convert-total advertised items =
        let names = function_call_name_map c.py_str items [] in
        let start : Weighs weight new_history 0 = record { unique = tt; sum = refl } in
        let whole = convert_items-Weighs names items new_history 0 start in
        let h = flush c.py_str (convert_items c names items new_history) in
        let over =
          flush-Weighs weight c.py_str light (convert_items c names items new_history) _ whole in
        let orphans = orphan_messages c (orphan_tool_name advertised) h.deferred in
        omega (
          arith,
          over.sum,
          total-append weight h.messages orphans,
          orphan-total (orphan_tool_name advertised) h.deferred,
        )

    -- For any weights of messages under which messages of calls weigh nothing: what a chat completion is
    -- sent weighs as much as the messages that the items of the input stand for. So, but for their order,
    -- the messages other than those of calls are these, each as often: none is lost, repeated or changed,
    -- also where outputs come before their calls or without them.
    pub responses_input_to_messages-total :
        (value : Json) (advertised : List Text)
        → total weight (responses_input_to_messages c value advertised)
          ≡ total weight (input_messages value)
    unfolding responses_input_to_messages input_messages
    responses_input_to_messages-total null advertised = refl
    responses_input_to_messages-total (str t) advertised = refl
    responses_input_to_messages-total (arr items) advertised =
        convert-total advertised (of_items items)
    responses_input_to_messages-total (bool b) advertised = refl
    responses_input_to_messages-total (int n) advertised = refl
    responses_input_to_messages-total (obj d) advertised = refl
