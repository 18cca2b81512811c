-- ===== src/Tests/PipelineRuns.antt =====
-- The input pipeline on a few items.
use codex_shim.Prelude.{◌≡◌, refl, true, false, none, some, List, [], ◌∷◌, codes, arith, text_eq}
use codex_shim.Json.{Json, str, obj, arr, Fields, field, end, find, cons, nil}
use codex_shim.Cache.State.{empty_cache, Host}
use codex_shim.Cache.Store.{put_items}
use codex_shim.Pipeline.Items.{is_call, is_output}
use codex_shim.Pipeline.Ids.{responses_function_call_ids}
use codex_shim.Pipeline.Orphans.{ids_of}
use codex_shim.Pipeline.Orphans.Pairing.{IsPaired, repair, repair-IsPaired, repair-unchanged}
use codex_shim.Pipeline.Orphans.Kept.{Extends, repair-Extends}
use codex_shim.Pipeline.Cleared.{clear_persisted_lookup_ids}
use codex_shim.Pipeline.Cleared.Lookups.{ids_of-clear_persisted_lookup_ids}
use codex_shim.Pipeline.Prepare.{
  Env, view_of, expand_cached_responses_input, prepare_responses_input_items,
  apply_responses_input_pipeline_to_body,
}
use codex_shim.Pipeline.Prepare.Promises.{
  prepare_responses_input_items-IsPaired, expand-put_items,
  apply_responses_input_pipeline_to_body-fields,
}

abbrev call : Json
call = obj (
    field (codes "type") (str (codes "function_call"))
      (field (codes "call_id") (str (codes "call_a")) end))

abbrev output : Json
output = obj (
    field (codes "type") (str (codes "function_call_output"))
      (field (codes "call_id") (str (codes "call_b")) end))

-- an orphan output and an unanswered call
abbrev broken : List Json
broken = output ∷ call ∷ []

abbrev env : Env
env = record { py_str = λ v. codes "0"; uuid = λ n. codes "0-0"; name_resolver = none }

abbrev host : Host Json
host = record {
  names = record { is_word = λ c. true; digest = λ value. codes "0" };
  encoded_size = λ items. 1;
  max_cache_bytes = 9;
}

abbrev body : Fields
body = field (codes "model") (str (codes "m")) (
    field (codes "previous_response_id") (str (codes "r"))
      (field (codes "input") (arr (cons output nil)) end))

repair-Extends_example : Extends broken (repair none broken).0
repair-Extends_example = repair-Extends none broken

repair-unchanged_example : repair none (repair none broken).0 ≡ ((repair none broken).0, [])
repair-unchanged_example =
    repair-unchanged none (repair none broken).0 (repair-IsPaired none broken)

prepare_responses_input_items-IsPaired_example :
    IsPaired (prepare_responses_input_items env none (codes "s") none broken true true).0
prepare_responses_input_items-IsPaired_example =
    prepare_responses_input_items-IsPaired env none (codes "s") none broken true

ids_of-clear_persisted_lookup_ids_example :
    (ids_of is_call (clear_persisted_lookup_ids env.uuid true broken).0 ≡ ids_of is_call broken)
    × (ids_of is_output (clear_persisted_lookup_ids env.uuid true broken).0
        ≡ ids_of is_output broken)
ids_of-clear_persisted_lookup_ids_example = ids_of-clear_persisted_lookup_ids env.uuid true broken

expand-put_items_example :
    expand_cached_responses_input
      (some (
        view_of host
          (put_items host 1 (codes "s") (codes "r") (call ∷ []) false (empty_cache 1 []))))
      (codes "s")
      (some (str (codes "r")))
      (output ∷ [])
      true
    ≡ call ∷ output ∷ []
expand-put_items_example =
    expand-put_items host 1 (codes "s") (codes "r") (call ∷ []) (output ∷ []) (empty_cache 1 [])
      (omega arith) refl refl

apply_responses_input_pipeline_to_body-fields_example :
    find
      (codes "previous_response_id")
      (apply_responses_input_pipeline_to_body env none (codes "s") true true true body)
    ≡ none
unfolding text_eq
apply_responses_input_pipeline_to_body-fields_example =
    apply_responses_input_pipeline_to_body-fields env none (codes "s") true true true body
      (codes "previous_response_id") refl

canonical : responses_function_call_ids (codes " fc_call_9") ≡ (codes "fc_9", codes "call_9")
unfolding responses_function_call_ids
canonical = refl
