-- ===== src/History/Items.antt =====
-- `_responses_input_to_messages` of codex_shim/translate.py, item by item.
use codex_shim.Prelude.{
  not, ◌&&◌, Option, none, some, List, [], ◌∷◌, ◌++◌, Text, Text-Eq, codes, mem, strip, is_empty,
  if◌then◌else◌,
}
use codex_shim.Prelude.Dict.{Dict, put}
use codex_shim.Json.{Json, str, arr, obj, Fields, find, of_items, truthy}
use codex_shim.History.{id_text}
use codex_shim.History.Search.{has_type_in, or_null, join}

abbrev pub hosted_web_search_unavailable_message : Text
hosted_web_search_unavailable_message =
    codes "The Codex hosted web_search tool returned no results and is unavailable at this time. "
    ++ codes "Other search tools may still be available (for example MCP web_search_exa). "
    ++ codes "Do not retry web_search; use an alternative search tool instead."

abbrev pub native_compaction_unavailable_notice : Text
native_compaction_unavailable_notice =
    codes "Compacted conversation state is present but encrypted for another provider. "
    ++ codes "Continue the user's existing task from remaining messages and the workspace; "
    ++ codes "do not restart from scratch or invent a new goal."

abbrev pub tool_call_history_types : List Text
tool_call_history_types = codes "function_call" ∷ codes "custom_tool_call" ∷ []

abbrev pub tool_output_history_types : List Text
tool_output_history_types = codes "function_call_output" ∷ codes "custom_tool_call_output" ∷ []

abbrev pub input_types : List Text
input_types = codes "input_text" ∷ codes "text" ∷ codes "input_image" ∷ []

-- x or y, of field values
abbrev pub or_value : Option Json → Json → Json
or_value none y = y
or_value (some v) y = if truthy v then v else y

-- _function_call_name_map, after the names of the items before
unfoldable pub function_call_name_map : (Json → Text) → List Json → Dict Text Text → Dict Text Text
unfolding find mem put
function_call_name_map py_str [] names = names
function_call_name_map py_str (obj d ∷ items) names =
    let k = id_text py_str (or_value (find (codes "call_id") d) (or_null (find (codes "id") d))) in
    let named = put k (id_text py_str (or_null (find (codes "name") d))) names in
    function_call_name_map py_str items (
      if has_type_in tool_call_history_types (find (codes "type") d) && not (is_empty k)
      then named
      else names)
function_call_name_map py_str (item ∷ items) names = function_call_name_map py_str items names

abbrev orphan_tool_name_preference : List Text
orphan_tool_name_preference =
    codes "exec_command" ∷ codes "shell" ∷ codes "bash" ∷ codes "apply_patch" ∷ []

abbrev first_or_unknown : List Text → Text
first_or_unknown [] = codes "unknown_tool"
first_or_unknown (name ∷ names) = name

unfoldable pub preferred : List Text → List Text → Text
unfolding mem
preferred [] advertised = first_or_unknown advertised
preferred (candidate ∷ candidates) advertised =
    let later = preferred candidates advertised in
    if mem candidate advertised then candidate else later

-- _orphan_tool_name
unfoldable pub orphan_tool_name : List Text → Text
unfolding preferred
orphan_tool_name advertised = preferred orphan_tool_name_preference advertised

abbrev text_entry : Fields → List Text
text_entry d = elim (or_value (find (codes "text") d) (or_null (find (codes "summary") d))) [
  | str t ↦ if is_empty (strip t) then [] else strip t ∷ []
  | _ ↦ []
]

unfoldable pub summary_parts : List Json → List Text
unfolding strip find
summary_parts [] = []
summary_parts (str t ∷ entries) =
    let rest = summary_parts entries in if is_empty (strip t) then rest else strip t ∷ rest
summary_parts (obj d ∷ entries) = text_entry d ++ summary_parts entries
summary_parts (entry ∷ entries) = summary_parts entries

abbrev own_summary : Option Json → Text
own_summary (some (str t)) = strip t
own_summary (some (arr entries)) = join (codes "\n") (summary_parts (of_items entries))
own_summary _ = []

-- _compaction_summary_text, empty where that is None
unfoldable pub compaction_summary_text : (Json → Option Text) → Fields → Text
unfolding find summary_parts join of_items strip
compaction_summary_text decode item =
    elim (decode (or_null (find (codes "encrypted_content") item))) [
      | some (c ∷ t) ↦ c ∷ t
      | some [] ↦ own_summary (find (codes "summary") item)
      | none ↦ own_summary (find (codes "summary") item)
    ]
