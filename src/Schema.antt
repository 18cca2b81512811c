-- ===== src/Schema.antt =====
-- `tighten_json_schema_required` of codex_shim/translate.py: the schemas of tools for strict hosts.
-- Python's `str` and `str.lower` are parameters.
pub mod Required
pub mod Tools
use codex_shim.Prelude.{
  Bool, true, false, not, ◌&&◌, Option, none, some, List, [], ◌∷◌, ◌++◌, map, Text, codes, text_eq,
  mem, strip, if◌then◌else◌,
}
use codex_shim.Json.{
  Json, null, bool, int, str, arr, obj, Items, nil, cons, Fields, field, end, find, store, remove,
  to_items, of_items, truthy,
}
use codex_shim.Pipeline.Ids.{text_of}

-- What stands under a key of a schema: a list of schemas, a schema or a list of them, a schema, an
-- object of schemas, or something else.
pub data Part : Type 0 where
  schema_list schema_or_list schema_only schema_fields other_part : Part

unfoldable pub part_at : Text → Part
unfolding mem text_eq
part_at key =
    if mem key (codes "anyOf" ∷ codes "oneOf" ∷ codes "allOf" ∷ [])
    then schema_list
    else if text_eq key (codes "items")
    then schema_or_list
    else if text_eq key (codes "additionalProperties")
    then schema_only
    else if mem key (codes "$defs" ∷ codes "definitions" ∷ codes "properties" ∷ [])
    then schema_fields
    else other_part

unfoldable pub names : Fields → List Text
names end = []
names (field key v d) = key ∷ names d

unfoldable pub has_name : Text → Fields → Bool
unfolding find
has_name key d = elim (find key d) [ none ↦ false | some v ↦ true ]

abbrev pub text_list : List Text → Json
text_list keys = arr (to_items (map str keys))

-- {key: tightened[key] for key in required_keys}: a key that is repeated stands once, where it was first
unfoldable pub select : List Text → Fields → Fields
unfolding find remove
select [] tightened = end
select (key ∷ keys) tightened =
    let rest = select keys tightened in
    elim (find key tightened) [ none ↦ rest | some v ↦ field key v (remove key rest) ]

abbrev pub with_empty_required : Option Json → Bool → Fields → Fields
with_empty_required (some (arr items)) is_object out = out
with_empty_required required true out = store (codes "required") (arr nil) out
with_empty_required required false out = out

module _ (py_str : Json → Text) where
  -- the loop over `existing`
  unfoldable pub required_keys : List Json → Fields → List Text → List Text
  unfolding has_name mem text_eq
  required_keys [] tightened keys = keys
  required_keys (item ∷ existing) tightened keys =
      let key = text_of py_str item in
      required_keys existing tightened
        (if has_name key tightened && not (mem key keys) then keys ++ key ∷ [] else keys)

  unfoldable pub with_properties : Option Json → Fields → Fields → Fields
  unfolding required_keys select store to_items names of_items
  with_properties (some (arr (cons item existing))) tightened out =
      let keys = required_keys (item ∷ of_items existing) tightened [] in
      store (codes "required") (text_list keys)
        (store (codes "properties") (obj (select keys tightened)) out)
  with_properties required tightened out =
      store (codes "required") (text_list (names tightened)) out

module _ (py_str : Json → Text) (lower : Text → Text) where
  -- str(out.get("type") or "").strip().lower() == "object"
  abbrev pub is_object_type : Option Json → Bool
  is_object_type none = false
  is_object_type (some v) =
      if truthy v
      then text_eq (lower (strip (text_of py_str v))) (codes "object")
      else text_eq (lower []) (codes "object")

  -- from `properties = out.get("properties")` on
  unfoldable pub finish_object : Fields → Fields
  unfolding with_properties find store strip text_eq
  finish_object out = elim (find (codes "properties") out) [
    | some (obj tightened) ↦ with_properties py_str (find (codes "required") out) tightened out
    | _ ↦
        with_empty_required (find (codes "required") out) (is_object_type (find (codes "type") out))
          out
  ]

  unfoldable mutual
    unfolding finish_object part_at

    pub tighten_json_schema_required : Json → Json
    tighten_json_schema_required (arr items) = arr (tighten_items items)
    tighten_json_schema_required (obj d) = obj (finish_object (tighten_fields d))
    tighten_json_schema_required (str t) = str t
    tighten_json_schema_required (int n) = int n
    tighten_json_schema_required (bool b) = bool b
    tighten_json_schema_required null = null

    pub tighten_items : Items → Items
    tighten_items nil = nil
    tighten_items (cons v items) = cons (tighten_json_schema_required v) (tighten_items items)

    -- the values of an object of schemas
    pub tighten_values : Fields → Fields
    tighten_values end = end
    tighten_values (field key v d) = field key (tighten_json_schema_required v) (tighten_values d)

    -- if isinstance(value, list)
    pub tighten_list : Json → Json
    tighten_list (arr items) = arr (tighten_items items)
    tighten_list (obj d) = obj d
    tighten_list (str t) = str t
    tighten_list (int n) = int n
    tighten_list (bool b) = bool b
    tighten_list null = null

    -- if isinstance(value, dict)
    pub tighten_dict : Json → Json
    tighten_dict (obj d) = obj (finish_object (tighten_fields d))
    tighten_dict (arr items) = arr items
    tighten_dict (str t) = str t
    tighten_dict (int n) = int n
    tighten_dict (bool b) = bool b
    tighten_dict null = null

    pub tighten_dict_values : Json → Json
    tighten_dict_values (obj d) = obj (tighten_values d)
    tighten_dict_values (arr items) = arr items
    tighten_dict_values (str t) = str t
    tighten_dict_values (int n) = int n
    tighten_dict_values (bool b) = bool b
    tighten_dict_values null = null

    -- each field of a schema
    pub tighten_fields : Fields → Fields
    tighten_fields end = end
    tighten_fields (field key v d) =
        field key
          (elim (part_at key) [
            | schema_list ↦ tighten_list v
            | schema_or_list ↦ tighten_json_schema_required v
            | schema_only ↦ tighten_dict v
            | schema_fields ↦ tighten_dict_values v
            | other_part ↦ v
          ])
          (tighten_fields d)
