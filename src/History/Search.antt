-- ===== src/History/Search.antt =====
-- Helpers of `_responses_input_to_messages`: web searches, orphans' names and compaction summaries.
use codex_shim.Prelude.{
  Bool, true, false, not, ◌&&◌, ◌||◌, Option, none, some, List, [], ◌∷◌, ◌++◌, Text, codes, mem,
  strip, is_empty, if◌then◌else◌,
}
use codex_shim.Json.{
  Json, null, bool, int, str, arr, obj, Items, nil, cons, Fields, field, end, find, of_items,
  truthy,
}
use codex_shim.Pipeline.Ids.{text_of}
use codex_shim.History.{id_text}

-- _is_hosted_web_search_name
unfoldable pub is_hosted_web_search_name : (Text → Text) → Text → Bool
unfolding strip mem
is_hosted_web_search_name lower name =
    mem (lower (strip name)) (codes "web_search" ∷ codes "web_search_preview" ∷ [])

abbrev text_types : List Text
text_types = codes "input_text" ∷ codes "output_text" ∷ codes "text" ∷ []

abbrev pub has_type_in : List Text → Option Json → Bool
has_type_in names (some (str t)) = mem t names
has_type_in names _ = false

abbrev pub or_null : Option Json → Json
or_null none = null
or_null (some v) = v

-- not str(value or "").strip()
abbrev is_blank : (Json → Text) → Option Json → Bool
is_blank py_str v = is_empty (strip (id_text py_str (or_null v)))

abbrev bookkeeping_fields : List Text
bookkeeping_fields = codes "type" ∷ codes "status" ∷ codes "call_id" ∷ codes "id" ∷ []

unfoldable mutual
  unfolding mem find strip

  -- _is_absolutely_empty_web_search_output
  pub is_absolutely_empty : (Json → Text) → Json → Bool
  is_absolutely_empty py_str null = true
  is_absolutely_empty py_str (bool b) = is_empty (strip (py_str (bool b)))
  is_absolutely_empty py_str (int n) = is_empty (strip (py_str (int n)))
  is_absolutely_empty py_str (str t) = is_empty (strip t)
  is_absolutely_empty py_str (arr entries) = empty_entries py_str entries
  is_absolutely_empty py_str (obj d) =
      let fields_empty = empty_fields py_str d in
      if has_type_in text_types (find (codes "type") d)
      then is_blank py_str (find (codes "text") d)
      else fields_empty

  pub empty_entries : (Json → Text) → Items → Bool
  empty_entries py_str nil = true
  empty_entries py_str (cons v entries) =
      is_absolutely_empty py_str v && empty_entries py_str entries

  pub empty_fields : (Json → Text) → Fields → Bool
  empty_fields py_str end = true
  empty_fields py_str (field k v d) =
      (mem k bookkeeping_fields || is_absolutely_empty py_str v) && empty_fields py_str d

-- the first truthy value of some names, as a text, stripped
unfoldable pub first_text : (Json → Text) → List Text → Fields → Text
unfolding find strip
first_text py_str [] d = []
first_text py_str (name ∷ names) d =
    let later = first_text py_str names d in
    let v = or_null (find name d) in if truthy v then strip (text_of py_str v) else later

abbrev two_lines : Text → Text → Text
two_lines a b = a ++ codes "\n" ++ b

-- The part that an entry adds, if any: its snippet under its title, the title over its URL, or one of them.
abbrev entry_part : (snippet title url : Text) → Option Text
entry_part [] [] [] = none
entry_part [] [] (u ∷ url) = some (u ∷ url)
entry_part [] (t ∷ title) [] = some (t ∷ title)
entry_part [] (t ∷ title) (u ∷ url) = some (two_lines (t ∷ title) (u ∷ url))
entry_part (s ∷ snippet) [] url = some (s ∷ snippet)
entry_part (s ∷ snippet) (t ∷ title) url = some (two_lines (t ∷ title) (s ∷ snippet))

unfoldable pub format_entry : (Json → Text) → Json → Option Text
unfolding first_text strip
format_entry py_str (str t) = if is_empty (strip t) then none else some (strip t)
format_entry py_str (obj d) =
    entry_part
      (first_text py_str
        (codes "snippet" ∷ codes "text" ∷ codes "content" ∷ codes "description" ∷ []) d)
      (first_text py_str (codes "title" ∷ codes "name" ∷ []) d)
      (first_text py_str (codes "url" ∷ []) d)
format_entry py_str _ = none

abbrev push_part : Option Text → List Text → List Text
push_part none parts = parts
push_part (some p) parts = p ∷ parts

unfoldable pub format_entries : (Json → Text) → List Json → List Text
unfolding format_entry
format_entries py_str [] = []
format_entries py_str (v ∷ entries) =
    push_part (format_entry py_str v) (format_entries py_str entries)

-- _format_web_search_result_entries
unfoldable pub format_web_search_result_entries : (Json → Text) → Option Json → List Text
unfolding format_entries of_items
format_web_search_result_entries py_str (some (arr entries)) =
    format_entries py_str (of_items entries)
format_web_search_result_entries py_str _ = []

-- separator.join(parts)
unfoldable pub join : Text → List Text → Text
join separator [] = []
join separator (p ∷ []) = p
join separator (p ∷ q ∷ parts) = p ++ separator ++ join separator (q ∷ parts)

abbrev action_parts : (Json → Text) → Option Json → List Text
action_parts py_str (some (obj action)) =
    format_web_search_result_entries py_str (find (codes "sources") action)
    ++ format_web_search_result_entries py_str (find (codes "results") action)
action_parts py_str _ = []

-- output not in (None, "", [], {})
abbrev is_given : Json → Bool
is_given null = false
is_given (str []) = false
is_given (arr nil) = false
is_given (obj end) = false
is_given v = true

abbrev output_parts : (Json → Text) → Json → List Text
output_parts content_text output =
    let text = strip (content_text output) in
    if is_given output && not (is_empty text) then text ∷ [] else []

-- _web_search_call_result_text
unfoldable pub web_search_call_result_text : (py_str content_text : Json → Text) → Fields → Text
unfolding join find format_web_search_result_entries strip
web_search_call_result_text py_str content_text item = join (codes "\n\n") (
    action_parts py_str (find (codes "action") item)
    ++ format_web_search_result_entries py_str (find (codes "results") item)
    ++ output_parts content_text (or_null (find (codes "output") item)))
