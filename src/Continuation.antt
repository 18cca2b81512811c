-- ===== src/Continuation.antt =====
-- codex_shim/continuation_policy.py: when a request that continues an earlier response is expanded from
-- the cache. The variable CODEX_SHIM_CHATGPT_WS_FORCE_EXPAND is the flag `force`; Python's `str` and
-- `str.lower` are parameters.
pub mod Expansion
use codex_shim.Prelude.{
  Bool, true, false, not, ◌&&◌, ◌||◌, Option, none, some, List, [], ◌∷◌, Text, codes, text_eq, mem,
  any_of, after_prefix, is_empty, if◌then◌else◌,
}
use codex_shim.Json.{Json, null, str, obj, Fields, find, truthy}
use codex_shim.Pipeline.Items.{field_of, text_field, is_text, has_type}
use codex_shim.Pipeline.Ids.{text_of, starts}

pub data Surface : Type 0 where
  http ws : Surface

pub data Route : Type 0 where
  chatgpt_codex byok cursor local : Route

abbrev pub is_chatgpt_ws : Surface → Route → Bool
is_chatgpt_ws ws chatgpt_codex = true
is_chatgpt_ws surface route = false

-- (body or {}).get("previous_response_id"), where there is no body `null`
unfoldable pub previous_response_id : Json → Json
unfolding find
previous_response_id body = elim (field_of (codes "previous_response_id") body) [
  | none ↦ null
  | some v ↦ v
]

-- last_upstream_chained_response_id == previous_response_id
abbrev pub is_last_chained : Option Text → Json → Bool
is_last_chained (some last) (str id) = text_eq last id
is_last_chained none null = true
is_last_chained last id = false

module _ (force : Bool) where
  unfoldable pub should_expand_continuation :
      Surface
      → Route
      → (upstream_connection_reused : Bool) (last_upstream_chained_response_id : Option Text)
        (body : Json)
      → Bool
  unfolding previous_response_id text_eq
  should_expand_continuation surface route reused last_chained body =
      let previous = previous_response_id body in
      if is_chatgpt_ws surface route
      then (if force
          then truthy previous
          else if not (truthy previous)
          then false
          else if not reused
          then true
          else not (is_last_chained last_chained previous))
      else truthy previous

abbrev pub prev_id_error_markers : List Text
prev_id_error_markers =
    codes "previous_response_id"
    ∷ codes "previous_response_not_found"
    ∷ codes "Unsupported parameter"
    ∷ []

-- part in text
unfoldable pub contains : Text → Text → Bool
unfolding after_prefix
contains part [] = is_empty part
contains part (c ∷ t) = let later = contains part t in starts part (c ∷ t) || later

module _ (py_str : Json → Text) (lower : Text → Text) where
  unfoldable pub is_previous_response_id_upstream_error : (message code param : Text) → Bool
  unfolding contains
  is_previous_response_id_upstream_error message code param =
      not (is_empty param) && contains (codes "previous_response") (lower param)
      || not (is_empty code) && contains (codes "previous_response") (lower code)
      || any_of (λ marker. contains (lower marker) (lower message)) prev_id_error_markers

  -- str(err.get(name) or "")
  unfoldable pub text_or_blank : Text → Json → Text
  unfolding find
  text_or_blank name err = elim (field_of name err) [
    | none ↦ []
    | some v ↦ if truthy v then text_of py_str v else []
  ]

  unfoldable pub is_previous_response_id_upstream_event : Fields → Bool
  unfolding has_type text_field find text_eq is_previous_response_id_upstream_error text_or_blank
  is_previous_response_id_upstream_event event =
      let described : Bool = elim (find (codes "error") event) [
        | some (obj err) ↦
            is_previous_response_id_upstream_error (text_or_blank (codes "message") (obj err))
              (text_or_blank (codes "code") (obj err)) (text_or_blank (codes "param") (obj err))
        | _ ↦ elim (find (codes "detail") event) [
          | some (str detail) ↦ is_previous_response_id_upstream_error detail [] []
          | _ ↦ is_previous_response_id_upstream_error (py_str (obj event)) [] []
        ]
      ] in
      (has_type (codes "error") (obj event) || has_type (codes "response.failed") (obj event))
      && described
