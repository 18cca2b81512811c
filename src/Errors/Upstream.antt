-- ===== src/Errors/Upstream.antt =====
-- `parse_upstream_error` of codex_shim/net/errors.py.
pub mod Nonblank
use codex_shim.Prelude.{
  ℕ, ◌+◌, Bool, true, false, not, ◌&&◌, ◌||◌, Option, none, some, List, [], ◌∷◌, ◌++◌, Text, codes,
  text_eq, mem, strip, is_empty, take, if◌then◌else◌,
}
use codex_shim.Json.{
  Json, null, bool, int, str, arr, obj, ℤ, pos, negsuc, Items, nil, cons, Fields, field, end, find,
  truthy,
}
use codex_shim.Pipeline.Ids.{text_of}
use codex_shim.Retry.Policy.{Kind, no_throttle, rate_limit, quota, transport}
use codex_shim.Errors.{Python, fields_of, value_of}

abbrev pub CodeMessage : Type 0
CodeMessage = Text × Text

abbrev pub generic_error_messages : List Text
generic_error_messages = codes "provider returned error" ∷ codes "error" ∷ []

-- _nonempty_str
unfoldable pub nonempty_str : Json → Option Text
unfolding strip
nonempty_str (str t) = if is_empty (strip t) then none else some (strip t)
nonempty_str _ = none

-- what a later value replaces
abbrev pub replaced_by : Option Text → Text → Text
replaced_by none t = t
replaced_by (some new) t = new

abbrev pub message_or : Text → Text → Text
message_or [] default = default
message_or (c ∷ t) default = c ∷ t

-- "; ".join(parts)
unfoldable pub join_parts : List Text → Text
join_parts [] = []
join_parts (part ∷ []) = part
join_parts (part ∷ next ∷ parts) = part ++ (codes "; " ++ join_parts (next ∷ parts))

module _ (py : Python) where
  -- _error_code_of
  unfoldable pub error_code_of : Json → Option Text
  unfolding nonempty_str
  error_code_of (int n) = some (py.py_str (int n))
  error_code_of v = nonempty_str v

  -- the code that an error object names: its type, else its code
  unfoldable pub nested_code : Fields → Text → Text
  unfolding nonempty_str value_of error_code_of
  nested_code err code = elim (nonempty_str (value_of (codes "type") err)) [
    | some t ↦ t
    | none ↦ replaced_by (error_code_of (value_of (codes "code") err)) code
  ]

  -- the metadata of an error object
  unfoldable pub with_metadata : Fields → Fields → CodeMessage → CodeMessage
  unfolding nonempty_str value_of error_code_of mem text_eq
  with_metadata err meta (code, message) =
      let code' : Text = elim (nonempty_str (value_of (codes "type") err)) [
        | some t ↦ code
        | none ↦ replaced_by (error_code_of (value_of (codes "provider_error_code") meta)) code
      ] in
      let raw = replaced_by (nonempty_str (value_of (codes "raw") meta)) message in
      (code', if mem (py.lower message) generic_error_messages then raw else message)

  -- the branches on payload.get("error")
  unfoldable pub with_error : Json → CodeMessage → CodeMessage
  unfolding nonempty_str value_of nested_code with_metadata
  with_error (obj err) (code, message) =
      let message' = replaced_by (nonempty_str (value_of (codes "message") err)) message in
      let code' = nested_code err code in
      elim (value_of (codes "metadata") err) [
        | obj meta ↦ with_metadata err meta (code', message')
        | _ ↦ (code', message')
      ]
  with_error (str t) (code, message) = (code, replaced_by (nonempty_str (str t)) message)
  with_error _ result = result

  -- [str(item).strip() for item in detail if str(item).strip()], joined by "; "
  unfoldable pub detail_parts : Items → List Text
  unfolding strip
  detail_parts nil = []
  detail_parts (cons v items) =
      let rest = detail_parts items in
      let part = strip (text_of py.py_str v) in if is_empty part then rest else part ∷ rest

  unfoldable pub with_detail : Json → Text → Text
  unfolding nonempty_str detail_parts join_parts
  with_detail (str t) message = replaced_by (nonempty_str (str t)) message
  with_detail (arr items) message = message_or (join_parts (detail_parts items)) message
  with_detail _ message = message

  -- the fields of the payload itself
  unfoldable pub with_payload : Fields → CodeMessage → CodeMessage
  unfolding with_error with_detail nonempty_str value_of
  with_payload payload result =
      let (code, message) = with_error (value_of (codes "error") payload) result in
      let message' = replaced_by (nonempty_str (value_of (codes "message") payload)) message in
      (
        replaced_by (nonempty_str (value_of (codes "code") payload)) code,
        with_detail (value_of (codes "detail") payload) message',
      )

  abbrev pub http_code : ℕ → Text
  http_code status = codes "upstream_http_" ++ py.py_str (int (pos status))

  unfoldable pub parse_upstream_error : Text → ℕ → CodeMessage
  unfolding strip with_payload
  parse_upstream_error body http_status =
      let text = strip body in
      let returned = codes "Upstream returned HTTP " ++ py.py_str (int (pos http_status)) in
      if is_empty text then (http_code http_status, returned) else elim (py.loads text) [
        | some (obj payload) ↦ with_payload payload (http_code http_status, text)
        | _ ↦ (http_code http_status, take 2000 text)
      ]
