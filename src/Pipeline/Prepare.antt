-- ===== src/Pipeline/Prepare.antt =====
-- The pipeline: expansion from the session cache, alignment, repair and cleared ids.
pub mod Promises
use codex_shim.Prelude.{
  ℕ, zero, Bool, true, false, not, ◌&&◌, ◌||◌, Option, none, some, List, [], ◌∷◌, ◌++◌, Text, codes,
  length, is_empty, if◌then◌else◌,
}
use codex_shim.Json.{Json, arr, obj, Fields, find, store, remove, to_items, of_items}
use codex_shim.Cache.State.{Cache, Host}
use codex_shim.Cache.Store.{get_items, latest}
use codex_shim.Pipeline.Items.{as_text, nonempty_text, responses_input_items}
use codex_shim.Pipeline.Ids.{align_responses_tool_call_ids}
use codex_shim.Pipeline.Orphans.{
  Warning, cleared_ids, Repaired, synthesize_orphan_tool_calls, synthesize_missing_tool_outputs,
}
use codex_shim.Pipeline.Cleared.{clear_persisted_lookup_ids}

-- The protocol `ConversationCache`, with the `latest` that is looked up by `getattr`; what one
-- request reads of the cache.
pub record ConversationCache : Type 0 where
  pub lookup : Text → Text → Option (List Json)
  pub newest : Option (Text → Option (List Json))

-- The class of `Cache` as such a cache.
abbrev pub view_of : Host Json → Cache Json → ConversationCache
view_of h c = record {
  lookup = λ session response. (get_items h session response c).1;
  newest = some (λ session. (latest h session c).1);
}

-- What the pipeline takes from its surroundings.
pub record Env : Type 0 where
  pub py_str : Json → Text
  pub uuid : ℕ → Text
  pub name_resolver : Option (Text → Option Text)

-- previous_response_id, if it is a string that is not empty
abbrev pub previous_id : Option Json → Option Text
previous_id v = nonempty_text (as_text v)

abbrev pub cached_items : ConversationCache → Text → Text → Option (List Json)
cached_items cache session previous = elim (cache.lookup session previous) [
  | some items ↦ some items
  | none ↦ elim cache.newest [ none ↦ none | some newest ↦ newest session ]
]

abbrev pub before : Option (List Json) → List Json → List Json
before none delta = delta
before (some cached) delta = cached ++ delta

-- expand_cached_responses_input; `context` only chooses the log line
unfoldable pub expand_cached_responses_input :
    Option ConversationCache → Text → Option Json → List Json → Bool → List Json
expand_cached_responses_input none session previous delta enabled = delta
expand_cached_responses_input (some cache) session previous delta enabled =
    let expanded : List Json = elim (previous_id previous) [
      | none ↦ delta
      | some k ↦ before (cached_items cache session k) delta
    ] in
    if enabled then expanded else delta

abbrev pub is_some : Option Text → Bool
is_some none = false
is_some (some t) = true

abbrev pub repair_if : Bool → Option (Text → Option Text) → List Json → Repaired
repair_if false resolver items = (items, [])
repair_if true resolver items =
    let (called, warnings) = synthesize_orphan_tool_calls resolver items in
    let (answered, extra) = synthesize_missing_tool_outputs called in (answered, warnings ++ extra)

abbrev pub cleared_warning : ℕ → Bool → List Warning
cleared_warning zero replay = []
cleared_warning n replay = cleared_ids n replay ∷ []

unfoldable pub prepare_responses_input_items :
    Env → Option ConversationCache → Text → Option Json → List Json → Bool → Bool → Repaired
unfolding expand_cached_responses_input synthesize_orphan_tool_calls synthesize_missing_tool_outputs
    clear_persisted_lookup_ids
prepare_responses_input_items env cache session previous items expand orphan_synthesis =
    let expanded = expand_cached_responses_input cache session previous items expand in
    let aligned = align_responses_tool_call_ids env.py_str expanded in
    let (repaired, warnings) = repair_if orphan_synthesis env.name_resolver aligned in
    let stateless_replay = expand && is_some (previous_id previous) in
    let (cleared_items, cleared) = clear_persisted_lookup_ids env.uuid stateless_replay repaired in
    (cleared_items, warnings ++ cleared_warning cleared stateless_replay)

-- apply_responses_input_pipeline_to_body: `input` is prepared if it is a list, then the previous
-- id is stripped
abbrev pub prepared_input :
    Env → Option ConversationCache → Text → Bool → Bool → Option Json → Fields → Fields
prepared_input env cache session expand orphan_synthesis (some (arr xs)) body =
    let repaired =
      prepare_responses_input_items env cache session (find (codes "previous_response_id") body)
        (responses_input_items (arr xs)) expand orphan_synthesis in
    store (codes "input") (arr (to_items repaired.0)) body
prepared_input env cache session expand orphan_synthesis _ body = body

unfoldable pub apply_responses_input_pipeline_to_body :
    Env → Option ConversationCache → Text → Bool → Bool → Bool → Fields → Fields
unfolding find store remove prepare_responses_input_items
apply_responses_input_pipeline_to_body env cache session expand strip orphan_synthesis body =
    let prepared =
      prepared_input env cache session expand orphan_synthesis (find (codes "input") body) body in
    if strip then remove (codes "previous_response_id") prepared else prepared
