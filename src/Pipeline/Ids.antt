-- ===== src/Pipeline/Ids.antt =====
-- The id rules of codex_shim/tool_translate.py, and `align_responses_tool_call_ids`.
pub mod Pairs
pub mod Idempotent
use codex_shim.Prelude.{
  Bool, true, false, ◌&&◌, ◌||◌, not, Option, none, some, List, [], ◌∷◌, ◌++◌, map, Text, codes,
  text_eq, strip, after_prefix, or_text, is_empty, if◌then◌else◌,
}
use codex_shim.Json.{Json, null, str, obj, truthy, Fields, find, store, remove}
use codex_shim.Pipeline.Items.{field_of, text_field, as_text, has_type, is_output}

abbrev pub starts : Text → Text → Bool
starts prefix t = elim (after_prefix prefix t) [ none ↦ false | some rest ↦ true ]

-- the part of a token behind `call_` or `fc_`
unfoldable pub suffix_of : Text → Text
suffix_of token = elim (after_prefix (codes "call_") token) [
  | some rest ↦ or_text rest (codes "0")
  | none ↦ elim (after_prefix (codes "fc_") token) [
    | none ↦ token
    | some rest ↦
        let suffix = or_text rest (codes "0") in
        elim (after_prefix (codes "call_") suffix) [
          | none ↦ suffix
          | some inner ↦ or_text inner (codes "0")
        ]
  ]
]

-- str(raw_id or "").strip() or "0"
unfoldable pub token_of : Text → Text
unfolding strip
token_of raw = or_text (strip raw) (codes "0")

-- responses_function_call_ids: the item id and the call id
unfoldable pub responses_function_call_ids : Text → Text × Text
unfolding suffix_of token_of after_prefix
responses_function_call_ids raw =
    let suffix = suffix_of (token_of raw) in (codes "fc_" ++ suffix, codes "call_" ++ suffix)

-- Python's `str` of a value that is no string is the parameter `py_str`.
abbrev pub text_of : (Json → Text) → Json → Text
text_of py_str (str t) = t
text_of py_str v = py_str v

abbrev pub is_null : Json → Bool
is_null null = true
is_null v = false

-- item.get("call_id") or item.get("id"), as the text that `responses_function_call_ids` reads
abbrev pub id_source : (Json → Text) → Option Json → Option Json → Text
id_source py_str call_id item_id =
    let fallback : Text = elim item_id [
      | none ↦ []
      | some v ↦ if is_null v then [] else text_of py_str v
    ] in
    elim call_id [ none ↦ fallback | some v ↦ if truthy v then text_of py_str v else fallback ]

-- apply_function_call_ids on an object's fields
unfoldable pub apply_ids : (Json → Text) → Fields → Fields
unfolding responses_function_call_ids find store text_eq
apply_ids py_str d =
    let raw = id_source py_str (find (codes "call_id") d) (find (codes "id") d) in
    let ids = responses_function_call_ids raw in
    store (codes "call_id") (str ids.1) (store (codes "id") (str ids.0) d)

-- out["call_id"] = canonical id, for a call id that is no blank string
unfoldable pub set_call_id : Option Text → Fields → Fields
unfolding responses_function_call_ids store text_eq strip
set_call_id none d = d
set_call_id (some k) d =
    if is_empty (strip k)
    then d
    else store (codes "call_id") (str (responses_function_call_ids k).1) d

-- raw_id.startswith("call_") or raw_id.startswith("fc_") or raw_id == raw_call
abbrev pub is_leaked : Option Text → Option Text → Bool
is_leaked raw_call none = false
is_leaked raw_call (some t) =
    let equal : Bool = elim raw_call [ none ↦ false | some k ↦ text_eq t k ] in
    starts (codes "call_") t || starts (codes "fc_") t || equal

-- strip_function_call_output_item_id on an object's fields
unfoldable pub strip_output_id : Fields → Fields
unfolding set_call_id find remove after_prefix
strip_output_id d =
    let raw_call = as_text (find (codes "call_id") d) in
    let out = set_call_id raw_call d in
    if is_leaked raw_call (as_text (find (codes "id") d)) then remove (codes "id") out else out

abbrev pub map_fields : (Fields → Fields) → Json → Json
map_fields f (obj d) = obj (f d)
map_fields f v = v

-- one round of the loop of `align_responses_tool_call_ids`
unfoldable pub align_item : (Json → Text) → Json → Json
unfolding apply_ids strip_output_id set_call_id has_type is_output
align_item py_str raw =
    if has_type (codes "function_call") raw
    then map_fields (apply_ids py_str) raw
    else if is_output raw
    then map_fields strip_output_id raw
    else if has_type (codes "custom_tool_call") raw
    then map_fields (set_call_id (text_field (codes "call_id") raw)) raw
    else raw

abbrev pub align_responses_tool_call_ids : (Json → Text) → List Json → List Json
align_responses_tool_call_ids py_str items = map (align_item py_str) items
