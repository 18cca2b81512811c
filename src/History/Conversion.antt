-- ===== src/History/Conversion.antt =====
-- The loop of `_responses_input_to_messages` in codex_shim/translate.py.
use codex_shim.Prelude.{◌&&◌, Option, List, [], ◌∷◌, ◌++◌, Text, Text-Eq, codes, mem, if◌then◌else◌}
use codex_shim.Prelude.Dict.{Dict}
use codex_shim.Json.{Json, null, str, arr, obj, nil, Fields, end, find, of_items}
use codex_shim.History.{
  Message, plain, calling, search_result, reasoning_only, Contents, History, new_history, append,
  id_text, flush, place_output,
}
use codex_shim.History.Search.{has_type_in, or_null}
use codex_shim.History.Items.{
  tool_call_history_types, tool_output_history_types, input_types, or_value, function_call_name_map,
  orphan_tool_name,
}
use codex_shim.History.Parts.{
  get_or, is_present, is_message_type, chat_role, pending_call, messages_if, user, arguments_text,
  call_id_of, history_call, output_messages, called_of, web_search_result, take_web_search,
  search_output_text, mcp_messages, compaction_message,
}

-- The branches of the loop for an object.
pub data Kind : Type 0 where
  chat_message input_part computer_output tool_call tool_output web_search search_call
        search_output :
      Kind
  mcp_call compaction_item agent_item reasoning_item other_item : Kind

-- The branch of an item that is no message and no part of one, by its type.
abbrev other_kinds : List (List Text × Kind)
other_kinds =
    (input_types, input_part)
    ∷ (codes "computer_call_output" ∷ [], computer_output)
    ∷ (tool_call_history_types, tool_call)
    ∷ (tool_output_history_types, tool_output)
    ∷ (codes "web_search_call" ∷ [], web_search)
    ∷ (codes "tool_search_call" ∷ [], search_call)
    ∷ (codes "tool_search_output" ∷ [], search_output)
    ∷ (codes "mcp_tool_call" ∷ [], mcp_call)
    ∷ (codes "compaction" ∷ [], compaction_item)
    ∷ (codes "agent_message" ∷ [], agent_item)
    ∷ (codes "reasoning" ∷ [], reasoning_item)
    ∷ []

unfoldable pub first_kind : List (List Text × Kind) → Option Json → Kind
unfolding mem
first_kind [] type = other_item
first_kind ((types, kind) ∷ kinds) type =
    let later = first_kind kinds type in if has_type_in types type then kind else later

unfoldable pub kind_of : Fields → Kind
unfolding first_kind find
kind_of d =
    let type = find (codes "type") d in
    if is_message_type type && is_present (find (codes "role") d)
    then chat_message
    else first_kind other_kinds type

module _ (c : Contents) where
  -- The messages that an item stands for, but for those of its calls.
  unfoldable pub item_messages : Kind → Dict Text Text → Fields → List Message
  unfolding output_messages web_search_result search_output_text mcp_messages compaction_message
      find
  item_messages chat_message names d =
      let role = chat_role (get_or (find (codes "role") d) (str (codes "user"))) in
      plain role (c.chat_content (get_or (find (codes "content") d) (str []))) ∷ []
  item_messages input_part names d = plain (str (codes "user")) (c.chat_content (obj d)) ∷ []
  item_messages computer_output names d =
      plain (str (codes "user")) (c.computer_content (obj d)) ∷ []
  item_messages tool_call names d = []
  item_messages tool_output names d = output_messages c names d
  item_messages web_search names d = web_search_result c d ∷ []
  item_messages search_call names d = []
  item_messages search_output names d =
      search_result (or_null (find (codes "call_id") d)) (str (search_output_text c d)) ∷ []
  item_messages mcp_call names d = mcp_messages c d
  item_messages compaction_item names d = compaction_message c d ∷ []
  item_messages agent_item names d = messages_if (c.agent_message (obj d))
  item_messages reasoning_item names d =
      let encrypted = or_null (find (codes "encrypted_content") d) in
      reasoning_only encrypted (or_value (find (codes "summary") d) (arr nil)) ∷ []
  item_messages other_item names d = []

  unfoldable pub convert_kind : Kind → Dict Text Text → Fields → History → History
  unfolding flush history_call item_messages place_output take_web_search find
  convert_kind tool_call names d h = pending_call (history_call c d) h
  convert_kind tool_output names d h =
      let k = id_text c.py_str (or_null (find (codes "call_id") d)) in
      place_output c.py_str k (item_messages tool_output names d) h
  convert_kind web_search names d h = take_web_search c d h
  convert_kind search_call names d h =
      let args =
        arguments_text c.dumps c.py_str (or_value (find (codes "arguments") d) (obj end)) in
      pending_call (called_of (call_id_of c d) (codes "tool_search") args) (flush c.py_str h)
  convert_kind other_item names d h = h
  convert_kind kind names d h = append (item_messages kind names d) (flush c.py_str h)

  -- a round of the loop
  unfoldable pub convert_item : Dict Text Text → Json → History → History
  unfolding flush convert_kind kind_of
  convert_item names (str t) h = append (user t ∷ []) (flush c.py_str h)
  convert_item names (obj d) h = convert_kind (kind_of d) names d h
  convert_item names item h = h

  unfoldable pub convert_items : Dict Text Text → List Json → History → History
  unfolding convert_item
  convert_items names [] h = h
  convert_items names (item ∷ items) h = convert_items names items (convert_item names item h)

  -- the outputs whose calls never came, each after a call that is made up
  unfoldable pub orphan_messages : Text → Dict Text (List Message) → List Message
  orphan_messages name [] = []
  orphan_messages name ((k, messages) ∷ deferred) =
      calling (called_of (str k) name (codes "{}") ∷ []) ∷ messages ++ orphan_messages name deferred

  unfoldable pub convert : List Text → List Json → List Message
  unfolding flush convert_items orphan_messages function_call_name_map orphan_tool_name
  convert advertised items =
      let names = function_call_name_map c.py_str items [] in
      let h = flush c.py_str (convert_items names items new_history) in
      h.messages ++ orphan_messages (orphan_tool_name advertised) h.deferred

  unfoldable pub responses_input_to_messages : Json → List Text → List Message
  unfolding convert of_items
  responses_input_to_messages null advertised = []
  responses_input_to_messages (str t) advertised = user t ∷ []
  responses_input_to_messages (arr items) advertised = convert advertised (of_items items)
  responses_input_to_messages value advertised =
      plain (str (codes "user")) (c.chat_content value) ∷ []
