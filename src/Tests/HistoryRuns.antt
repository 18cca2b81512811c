-- ===== src/Tests/HistoryRuns.antt =====
-- An input whose outputs stand before their call, after it, and without one.
use codex_shim.Prelude.{ℕ, ◌≡◌, refl, none, List, [], ◌∷◌, Text, codes, text_eq}
use codex_shim.Json.{Json, str, arr, obj, nil, cons, Fields, field, end, of_items}
use codex_shim.History.{ToolCall, Message, plain, calling, tool_result, Contents}
use codex_shim.History.Items.{function_call_name_map, orphan_tool_name}
use codex_shim.History.Conversion.{convert, responses_input_to_messages}
use codex_shim.History.Calls.{AreCalled}
use codex_shim.History.Calls.Searches.{uncalled_searches}
use codex_shim.History.Calls.Whole.{items_of_input, responses_input_to_messages-AreCalled}
use codex_shim.History.Kept.{total}
use codex_shim.History.Kept.Whole.{input_messages, responses_input_to_messages-total}

abbrev text_or_empty : Json → Text
text_or_empty (str t) = t
text_or_empty _ = []

-- no pictures, no namespaces, no summaries
abbrev contents : Contents
contents = record {
  chat_content = λ v. v;
  computer_content = λ v. v;
  content_text = text_or_empty;
  visual_feedback = λ output call_id. none;
  agent_message = λ item. none;
  chat_tool_name = λ namespace name. name;
  wrap_input = λ v. v;
  decode_summary = λ v. none;
  flatten_tools = λ v. v;
  dumps = text_or_empty;
  py_str = text_or_empty;
  lower = λ t. t;
}

abbrev item : (type call_id : Text) → Fields → Json
item type call_id d =
    obj (field (codes "type") (str type) (field (codes "call_id") (str call_id) d))

abbrev output : Text → Text → Json
output call_id t = item (codes "function_call_output") call_id (field (codes "output") (str t) end)

abbrev call : Text → Json
call call_id = item (codes "function_call") call_id (field (codes "name") (str (codes "ls")) end)

abbrev input : Json
input = arr (
    cons (output (codes "a") (codes "early")) (
      cons (call (codes "a")) (
        cons (output (codes "a") (codes "late"))
          (cons (output (codes "b") (codes "lone")) (cons (str (codes "hi")) nil)))))

abbrev advertised : List Text
advertised = codes "bash" ∷ []

abbrev ls_call : Text → Text → ToolCall
ls_call call_id name = record { id = str call_id; name = str name; arguments = str [] }

-- an output is weighed by 1 or 2, a text by 4
abbrev weight : Message → ℕ
weight (tool_result call_id (str [])) = 1
weight (tool_result call_id content) = 2
weight (plain role content) = 4
weight message = 0

converted :
    responses_input_to_messages contents input advertised
    ≡ calling (ls_call (codes "a") (codes "ls") ∷ [])
      ∷ tool_result (str (codes "a")) (str (codes "early"))
      ∷ tool_result (str (codes "a")) (str (codes "late"))
      ∷ plain (str (codes "user")) (str (codes "hi"))
      ∷ calling (
          record { id = str (codes "b"); name = str (codes "bash"); arguments = str (codes "{}") }
          ∷ [])
      ∷ tool_result (str (codes "b")) (str (codes "lone"))
      ∷ []
unfolding responses_input_to_messages of_items function_call_name_map convert orphan_tool_name
    text_eq
converted = refl

responses_input_to_messages-AreCalled_example :
    AreCalled contents.py_str
      (uncalled_searches contents [] (items_of_input input))
      []
      (responses_input_to_messages contents input advertised)
responses_input_to_messages-AreCalled_example =
    responses_input_to_messages-AreCalled contents input advertised

responses_input_to_messages-total_example :
    total weight (responses_input_to_messages contents input advertised)
    ≡ total weight (input_messages contents input)
responses_input_to_messages-total_example =
    responses_input_to_messages-total contents weight (λ calls. refl) input advertised
