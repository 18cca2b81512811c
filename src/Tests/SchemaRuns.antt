-- ===== src/Tests/SchemaRuns.antt =====
-- A schema that requires one of its two properties.
use codex_shim.Prelude.{◌≡◌, refl, some, [], Text, codes, text_eq, mem, strip}
use codex_shim.Json.{
  Json, obj, arr, str, Fields, field, end, nil, cons, find, store, to_items, of_items,
}
use codex_shim.Schema.{
  names, has_name, text_list, select, required_keys, with_properties, finish_object, part_at,
  tighten_fields, tighten_values, tighten_list, tighten_dict, tighten_dict_values, tighten_items,
  tighten_json_schema_required,
}
use codex_shim.Schema.Required.{tighten_json_schema_required-properties}

abbrev py_str : Json → Text
py_str v = []

abbrev lower : Text → Text
lower t = t

abbrev text_type : Json
text_type = obj (field (codes "type") (str (codes "string")) end)

abbrev schema : Fields
schema = field (codes "type") (str (codes "object")) (
    field (codes "properties") (obj (field (codes "a") text_type (field (codes "b") text_type end)))
      (field (codes "required") (arr (cons (str (codes "b")) (cons (str (codes "c")) nil))) end))

abbrev tightened : Fields
tightened = field (codes "type") (str (codes "object")) (
    field (codes "properties") (obj (field (codes "b") text_type end))
      (field (codes "required") (arr (cons (str (codes "b")) nil)) end))

one_property : tighten_json_schema_required py_str lower (obj schema) ≡ obj tightened
unfolding tighten_json_schema_required tighten_fields tighten_values tighten_list tighten_dict
    tighten_dict_values tighten_items part_at finish_object with_properties required_keys has_name
    select names find store to_items of_items text_eq mem strip
one_property = refl

tighten_json_schema_required-properties_example :
    find (codes "required") tightened ≡ some (text_list (names (field (codes "b") text_type end)))
unfolding find text_eq names to_items
tighten_json_schema_required-properties_example =
    tighten_json_schema_required-properties py_str lower schema tightened
      (field (codes "b") text_type end) one_property refl
