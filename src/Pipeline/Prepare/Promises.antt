-- ===== src/Pipeline/Prepare/Promises.antt =====
-- What the pipeline promises of the items that it sends on.
use codex_shim.Prelude.{
  ℕ, ◌<◌, ◌≡◌, refl, ap, ◌∙◌, Bool, true, false, ◌&&◌, Option, none, some, List, [], ◌∷◌, ◌++◌,
  Text, codes, text_eq, is_empty, if◌then◌else◌,
}
use codex_shim.Json.{Json, null, str, arr, Fields, find, find-store, find-remove}
use codex_shim.Cache.State.{Cache, Host}
use codex_shim.Cache.Store.{put_items}
use codex_shim.Cache.Promises.{get_items-put_items}
use codex_shim.Pipeline.Orphans.Pairing.{IsPaired, call_ids, output_ids, repair, repair-IsPaired}
use codex_shim.Pipeline.Cleared.Lookups.{NoLookup, IsFresh, ids_of-clear_persisted_lookup_ids}
use codex_shim.Pipeline.Ids.{align_responses_tool_call_ids}
use codex_shim.Pipeline.Prepare.{
  ConversationCache, view_of, Env, expand_cached_responses_input, prepare_responses_input_items,
  apply_responses_input_pipeline_to_body, prepared_input, before, cached_items,
}

same_ids :
    (xs ys : List Json)
    → (call_ids xs ≡ call_ids ys) × (output_ids xs ≡ output_ids ys)
    → IsPaired ys
    → IsPaired xs
same_ids xs ys e p = record {
  calls = λ k h. rw e.0 (p.calls k (rw e.1 at h));
  outputs = λ k h. rw e.1 (p.outputs k (rw e.0 at h));
}

-- With orphan synthesis, whatever the cache returns and whatever the request holds: every tool output
-- that is sent on with a call id, a text that is not empty, has a tool call with this id, and every tool
-- call with a call id an output. Outputs and calls without such an id go on as they are.
pub prepare_responses_input_items-IsPaired :
    (env : Env) (cache : Option ConversationCache) (session : Text) (previous : Option Json)
    (items : List Json) (expand : Bool)
    → IsPaired (prepare_responses_input_items env cache session previous items expand true).0
unfolding prepare_responses_input_items
prepare_responses_input_items-IsPaired env cache session previous items expand =
    let aligned =
      align_responses_tool_call_ids env.py_str
        (expand_cached_responses_input cache session previous items expand) in
    let repaired = (repair env.name_resolver aligned).0 in
    same_ids _ repaired (ids_of-clear_persisted_lookup_ids env.uuid _ repaired)
      (repair-IsPaired env.name_resolver aligned)

-- The history is replayed without state: expansion is on, and the request names a previous response by
-- a text that is not empty.
abbrev pub is_replay : Bool → Option Json → Bool
is_replay true (some (str (c ∷ t))) = true
is_replay expand previous = false

-- In a replay every id that was supplied is a lookup, else one of the persisted form.
abbrev pub HasNoLookup : (ℕ → Text) → Bool → Json → Type 0
HasNoLookup uuid true item = IsFresh uuid item
HasNoLookup uuid false item = NoLookup item

before_hit :
    (cache : ConversationCache) (session k : Text) (stored delta : List Json)
    → cache.lookup session k ≡ some stored
    → before (cached_items cache session k) delta ≡ stored ++ delta
before_hit cache session k stored delta e =
    let hit : cached_items cache session k ≡ some stored = rw (e, cached_items) refl in
    ap (λ o. before o delta) hit

prepared_field :
    (env : Env) (cache : Option ConversationCache) (session : Text) (expand orphan : Bool)
    (o : Option Json) (body : Fields) (k : Text)
    → text_eq (codes "input") k ≡ false
    → find k (prepared_input env cache session expand orphan o body) ≡ find k body
prepared_field env cache session expand orphan (some (arr xs)) body k ne =
    rw (find-store (codes "input") k, ne) refl
prepared_field env cache session expand orphan (some null) body k ne = refl
prepared_field env cache session expand orphan (some _) body k ne = refl
prepared_field env cache session expand orphan none body k ne = refl

-- After a non-terminal `put` of a response with an id and items, into a cache whose memory has
-- room for one snapshot, a delta with that previous id is expanded to the stored items followed
-- by the delta.
pub expand-put_items :
    (h : Host Json) (now : ℕ) (session response : Text) (stored delta : List Json) (c : Cache Json)
    → 0 < c.max_memory_entries
    → is_empty response ≡ false
    → is_empty stored ≡ false
    → expand_cached_responses_input
        (some (view_of h (put_items h now session response stored false c)))
        session
        (some (str response))
        delta
        true
      ≡ stored ++ delta
unfolding expand_cached_responses_input
expand-put_items h now session [] stored delta c room named some_items = cc
expand-put_items h now session (a ∷ r) stored delta c room named some_items =
    before_hit (view_of h (put_items h now session (a ∷ r) stored false c)) session (a ∷ r) stored
      delta (get_items-put_items h now session (a ∷ r) stored c room named some_items)

-- Every field but `input` is sent as the client sent it, except that `strip_previous_response_id`
-- leaves no previous id.
pub apply_responses_input_pipeline_to_body-fields :
    (env : Env) (cache : Option ConversationCache) (session : Text) (expand strip orphan : Bool)
    (body : Fields) (k : Text)
    → text_eq (codes "input") k ≡ false
    → find k (apply_responses_input_pipeline_to_body env cache session expand strip orphan body)
      ≡ (if strip && text_eq (codes "previous_response_id") k then none else find k body)
unfolding apply_responses_input_pipeline_to_body
apply_responses_input_pipeline_to_body-fields env cache session expand true orphan body k ne =
    find-remove (codes "previous_response_id") k _
    ∙ ap (λ o. if text_eq (codes "previous_response_id") k then none else o)
        (prepared_field env cache session expand orphan (find (codes "input") body) body k ne)
apply_responses_input_pipeline_to_body-fields env cache session expand false orphan body k ne =
    prepared_field env cache session expand orphan (find (codes "input") body) body k ne
