-- ===== src/History/Parts.antt =====
-- The messages and calls that an item of a Responses input stands for, of `_responses_input_to_messages` in
-- codex_shim/translate.py.
use codex_shim.Prelude.{
  Bool, true, false, not, ◌&&◌, ◌||◌, Option, none, some, List, [], ◌∷◌, ◌++◌, Text, Text-Eq, codes,
  text_eq, mem, strip, is_empty, if◌then◌else◌,
}
use codex_shim.Prelude.Dict.{Dict, get}
use codex_shim.Json.{Json, null, str, obj, Fields, field, end, find, truthy}
use codex_shim.Pipeline.Ids.{text_of}
use codex_shim.History.{
  ToolCall, Message, plain, tool_result, agent, Contents, History, append, id_text, flush,
}
use codex_shim.History.Search.{
  has_type_in, or_null, is_hosted_web_search_name, is_absolutely_empty, web_search_call_result_text,
}
use codex_shim.History.Items.{
  hosted_web_search_unavailable_message, native_compaction_unavailable_notice, or_value,
  compaction_summary_text,
}

-- d.get(name, default)
abbrev pub get_or : Option Json → Json → Json
get_or none default = default
get_or (some v) default = v

abbrev pub is_null : Json → Bool
is_null null = true
is_null v = false

abbrev pub is_present : Option Json → Bool
is_present none = false
is_present (some v) = true

-- item_type in {"message", None}
abbrev pub is_message_type : Option Json → Bool
is_message_type none = true
is_message_type (some null) = true
is_message_type (some (str t)) = text_eq t (codes "message")
is_message_type (some v) = false

-- item.get("role", "user"), where "developer" is "system"
abbrev pub chat_role : Json → Json
chat_role (str t) = if text_eq t (codes "developer") then str (codes "system") else str t
chat_role role = role

abbrev pub pending_call : ToolCall → History → History
pending_call call h = record h { pending = h.pending ++ call ∷ [] }

abbrev pub messages_if : Option Json → List Message
messages_if none = []
messages_if (some message) = agent message ∷ []

abbrev pub user : Text → Message
user text = plain (str (codes "user")) (str text)

abbrev pub user_if : Bool → Text → List Message
user_if told text = if told then user text ∷ [] else []

-- the message of what an output shows
abbrev pub shown : Option Json → List Message
shown none = []
shown (some content) = plain (str (codes "user")) content ∷ []

-- isinstance(args, dict), else str(args), of args that may be missing
abbrev pub arguments_text : (dumps py_str : Json → Text) → Json → Text
arguments_text dumps py_str (obj d) = dumps (obj d)
arguments_text dumps py_str v = text_of py_str v

abbrev pub call_0 : Json
call_0 = str (codes "call_0")

-- action.get("query") or "", of an action that is a dict
abbrev pub query_of : (Json → Text) → Option Json → Text
query_of py_str (some (obj action)) = id_text py_str (or_null (find (codes "query") action))
query_of py_str _ = []

abbrev pub or_message : Text → Text
or_message t = if is_empty (strip t) then hosted_web_search_unavailable_message else t

abbrev pub called_of : Json → Text → Text → ToolCall
called_of id name arguments = record { id = id; name = str name; arguments = str arguments }

module _ (c : Contents) where
  -- item.get("call_id") or item.get("id") or "call_0"
  abbrev pub call_id_of : Fields → Json
  call_id_of d = or_value (find (codes "call_id") d) (or_value (find (codes "id") d) call_0)

  abbrev pub is_custom : Fields → Bool
  is_custom d = has_type_in (codes "custom_tool_call" ∷ []) (find (codes "type") d)

  unfoldable pub history_call : Fields → ToolCall
  unfolding find mem
  history_call d =
      let given = or_value (find (codes "name") d) (str []) in
      let name = if is_custom d && not (truthy given) then str (codes "apply_patch") else given in
      let namespace = or_null (find (codes "namespace") d) in
      let input = or_null (find (codes "input") d) in
      let arguments = or_value (find (codes "arguments") d) (str []) in
      record {
        id = call_id_of d;
        name = if truthy namespace && truthy name then c.chat_tool_name namespace name else name;
        arguments =
            if is_custom d || not (is_null input) && not (truthy arguments)
            then c.wrap_input input
            else arguments;
      }

  -- the messages of a tool output: its text, and what it shows, if anything
  unfoldable pub output_messages : Dict Text Text → Fields → List Message
  unfolding find get is_hosted_web_search_name is_absolutely_empty
  output_messages names d =
      let given = get_or (find (codes "output") d) (str []) in
      let call_id = or_null (find (codes "call_id") d) in
      let k = id_text c.py_str call_id in
      let name : Text = elim (get k names) [ none ↦ [] | some t ↦ t ] in
      let unavailable =
        is_hosted_web_search_name c.lower name && is_absolutely_empty c.py_str given in
      let text =
        if unavailable then hosted_web_search_unavailable_message else c.content_text given in
      tool_result (if is_empty k then call_id else str k) (str text)
      ∷ shown (c.visual_feedback given call_id)

  unfoldable pub web_search_result : Fields → Message
  unfolding find web_search_call_result_text strip
  web_search_result d =
      let result = or_message (web_search_call_result_text c.py_str c.content_text d) in
      tool_result (str (text_of c.py_str (call_id_of d))) (str result)

  unfoldable pub take_web_search : Fields → History → History
  unfolding flush find web_search_result
  take_web_search d h =
      let k = text_of c.py_str (call_id_of d) in
      let query = query_of c.py_str (find (codes "action") d) in
      let arguments =
        if is_empty query
        then codes "{}"
        else c.dumps (obj (field (codes "query") (str query) end)) in
      let called =
        flush c.py_str
          (pending_call (called_of (str k) (codes "web_search") arguments) (flush c.py_str h)) in
      append (web_search_result d ∷ []) called

  unfoldable pub search_output_text : Fields → Text
  unfolding find
  search_output_text d = elim (or_null (find (codes "tools") d)) [
    | null ↦ c.dumps (obj d)
    | tools ↦ c.dumps (obj (field (codes "tools") (c.flatten_tools tools) end))
  ]

  abbrev pub named_or : Text → Text → Fields → Text
  named_or name default d = text_of c.py_str (or_value (find name d) (str default))

  unfoldable pub mcp_messages : Fields → List Message
  unfolding find
  mcp_messages d =
      let result = or_null (find (codes "result") d) in
      let text = c.content_text result in
      let told =
        codes "MCP tool "
        ++ named_or (codes "server") (codes "mcp") d
        ++ codes "/"
        ++ named_or (codes "tool") (codes "tool") d
        ++ codes " result:\n"
        ++ text in
      user_if (truthy result && not (is_empty text)) told

  unfoldable pub compaction_message : Fields → Message
  unfolding compaction_summary_text
  compaction_message d =
      let summary = compaction_summary_text c.decode_summary d in
      user (
        if is_empty summary
        then native_compaction_unavailable_notice
        else codes "Compacted conversation state:\n" ++ summary)
