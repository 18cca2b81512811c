-- ===== src/Schema/Tools.antt =====
-- The tools of a Responses body with tightened schemas: `_tighten_responses_tool` and
-- `prepare_openai_responses_tool_schemas` of codex_shim/translate.py.
use codex_shim.Prelude.{some, [], ◌∷◌, Text, codes, text_eq, mem, if◌then◌else◌}
use codex_shim.Json.{
  Json, null, bool, int, str, arr, obj, Items, nil, cons, Fields, field, end, find, store,
}
use codex_shim.Schema.{tighten_dict}

-- What stands under a key of a tool: a schema, a list of tools, a tool, or something else.
pub data ToolPart : Type 0 where
  tool_schema tool_tools tool_function other_tool_part : ToolPart

unfoldable pub tool_part_at : Text → ToolPart
unfolding mem text_eq
tool_part_at key =
    if mem key (codes "parameters" ∷ codes "input_schema" ∷ [])
    then tool_schema
    else if text_eq key (codes "tools")
    then tool_tools
    else if text_eq key (codes "function")
    then tool_function
    else other_tool_part

module _ (py_str : Json → Text) (lower : Text → Text) where
  unfoldable mutual
    unfolding tighten_dict tool_part_at

    pub tighten_responses_tool : Json → Json
    tighten_responses_tool (obj d) = obj (tighten_tool_fields d)
    tighten_responses_tool (arr items) = arr items
    tighten_responses_tool (str t) = str t
    tighten_responses_tool (int n) = int n
    tighten_responses_tool (bool b) = bool b
    tighten_responses_tool null = null

    pub tighten_responses_tool_schemas : Items → Items
    tighten_responses_tool_schemas nil = nil
    tighten_responses_tool_schemas (cons v items) =
        cons (tighten_responses_tool v) (tighten_responses_tool_schemas items)

    -- if isinstance(nested, list)
    pub tighten_nested_tools : Json → Json
    tighten_nested_tools (arr items) = arr (tighten_responses_tool_schemas items)
    tighten_nested_tools (obj d) = obj d
    tighten_nested_tools (str t) = str t
    tighten_nested_tools (int n) = int n
    tighten_nested_tools (bool b) = bool b
    tighten_nested_tools null = null

    pub tighten_tool_fields : Fields → Fields
    tighten_tool_fields end = end
    tighten_tool_fields (field key v d) =
        field key
          (elim (tool_part_at key) [
            | tool_schema ↦ tighten_dict py_str lower v
            | tool_tools ↦ tighten_nested_tools v
            | tool_function ↦ tighten_responses_tool v
            | other_tool_part ↦ v
          ])
          (tighten_tool_fields d)

  -- a body whose tools are no list stays as it is
  unfoldable pub prepare_openai_responses_tool_schemas : Fields → Fields
  unfolding tighten_responses_tool_schemas find store
  prepare_openai_responses_tool_schemas body = elim (find (codes "tools") body) [
    | some (arr tools) ↦ store (codes "tools") (arr (tighten_responses_tool_schemas tools)) body
    | _ ↦ body
  ]
