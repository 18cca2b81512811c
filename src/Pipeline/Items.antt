-- ===== src/Pipeline/Items.antt =====
-- The items of a Responses input, and the tool calls and outputs among them.
use codex_shim.Prelude.{
  Bool, true, false, ◌||◌, Option, none, some, List, [], ◌∷◌, Text, codes, text_eq, if◌then◌else◌,
}
use codex_shim.Json.{Json, null, str, obj, arr, field, end, find, of_items}

-- raw.get(name) of an item; `none` too for an item that is no object
abbrev pub field_of : Text → Json → Option Json
field_of k (obj d) = find k d
field_of k _ = none

-- an object's field, if it is a string
abbrev pub as_text : Option Json → Option Text
as_text (some (str t)) = some t
as_text _ = none

unfoldable pub text_field : Text → Json → Option Text
text_field k item = as_text (field_of k item)

abbrev pub is_text : Text → Option Text → Bool
is_text k none = false
is_text k (some t) = text_eq t k

-- `_TOOL_CALL_ITEM_TYPES`, `_TOOL_OUTPUT_ITEM_TYPES`
unfoldable pub is_call : Json → Bool
unfolding text_field find text_eq
is_call item =
    is_text (codes "function_call") (text_field (codes "type") item)
    || is_text (codes "custom_tool_call") (text_field (codes "type") item)

unfoldable pub is_output : Json → Bool
unfolding text_field find text_eq
is_output item =
    is_text (codes "function_call_output") (text_field (codes "type") item)
    || is_text (codes "custom_tool_call_output") (text_field (codes "type") item)

abbrev pub nonempty_text : Option Text → Option Text
nonempty_text (some (c ∷ t)) = some (c ∷ t)
nonempty_text _ = none

-- _tool_item_call_id
unfoldable pub tool_item_call_id : Json → Option Text
unfolding text_field find text_eq
tool_item_call_id item = nonempty_text (text_field (codes "call_id") item)

abbrev pub unknown_function_tool_name : Text
unknown_function_tool_name = codes "unknown_tool"

abbrev pub unknown_custom_tool_name : Text
unknown_custom_tool_name = codes "unknown_custom_tool"

abbrev pub stale_tool_output_message : Text
stale_tool_output_message =
    codes
      "This tool output is old and no longer available. Do not assume a previous result is still valid; continue without it or retry the tool if still needed."

-- name or default
abbrev pub name_or : Option Text → Text → Text
name_or (some (c ∷ t)) default = c ∷ t
name_or _ default = default

-- whether an item has the given type
unfoldable pub has_type : Text → Json → Bool
unfolding text_field find text_eq
has_type t item = is_text t (text_field (codes "type") item)

-- _synthetic_tool_call_item; the flag says that the output's type is "custom_tool_call_output"
unfoldable pub synthetic_tool_call_item : Text → Bool → Option Text → Json
synthetic_tool_call_item call_id true name = obj (
    field (codes "type") (str (codes "custom_tool_call")) (
      field (codes "call_id") (str call_id) (
        field (codes "name") (str (name_or name unknown_custom_tool_name))
          (field (codes "input") (str []) end))))
synthetic_tool_call_item call_id false name = obj (
    field (codes "type") (str (codes "function_call")) (
      field (codes "call_id") (str call_id) (
        field (codes "name") (str (name_or name unknown_function_tool_name))
          (field (codes "arguments") (str (codes "{}")) end))))

-- _synthetic_tool_output_item; the flag says that the call's type is "custom_tool_call"
unfoldable pub synthetic_tool_output_item : Text → Bool → Json
synthetic_tool_output_item call_id custom = obj (
    field (codes "type")
      (str (if custom then codes "custom_tool_call_output" else codes "function_call_output"))
      (field (codes "call_id") (str call_id)
        (field (codes "output") (str stale_tool_output_message) end)))

-- responses_input_items
unfoldable pub responses_input_items : Json → List Json
unfolding of_items
responses_input_items (arr xs) = of_items xs
responses_input_items null = []
responses_input_items other =
    obj (
      field (codes "type") (str (codes "message"))
        (field (codes "role") (str (codes "user")) (field (codes "content") other end)))
    ∷ []
