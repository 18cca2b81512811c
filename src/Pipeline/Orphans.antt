-- ===== src/Pipeline/Orphans.antt =====
-- `synthesize_orphan_tool_calls` and `synthesize_missing_tool_outputs`. A warning keeps the values
-- that the message is made of.
pub mod Pairing
pub mod Kept
use codex_shim.Prelude.{
  ℕ, suc, Bool, true, false, ◌&&◌, Option, none, some, List, [], ◌∷◌, Text, codes, mem,
  if◌then◌else◌,
}
use codex_shim.Json.{Json}
use codex_shim.Pipeline.Items.{
  is_call, is_output, has_type, tool_item_call_id, synthetic_tool_call_item,
  synthetic_tool_output_item,
}

pub data Warning : Type 0 where
  synthesized_call : ℕ → Json → Text → Option Text → Warning
  synthesized_output : Json → Text → Warning
  cleared_ids : ℕ → Bool → Warning

abbrev pub Repaired : Type 0
Repaired = List Json × List Warning

abbrev pub keep : Json → Repaired → Repaired
keep item (items, warnings) = (item ∷ items, warnings)

abbrev pub warn : Warning → Repaired → Repaired
warn w (items, warnings) = (items, w ∷ warnings)

-- seen.add(call_id) `if call_id`
abbrev pub add_id : Option Text → List Text → List Text
add_id none seen = seen
add_id (some k) seen = k ∷ seen

-- the call ids of the tool calls (or of the outputs) among the items
unfoldable pub ids_of : (Json → Bool) → List Json → List Text
ids_of p [] = []
ids_of p (item ∷ items) =
    let rest = ids_of p items in if p item then add_id (tool_item_call_id item) rest else rest

-- name_resolver(call_id) if name_resolver else None
abbrev pub resolve : Option (Text → Option Text) → Text → Option Text
resolve none k = none
resolve (some f) k = f k

-- what an output with a call id is preceded by
abbrev pub custom_output : Json → Bool
custom_output item = has_type (codes "custom_tool_call_output") item

abbrev pub custom_call : Json → Bool
custom_call item = has_type (codes "custom_tool_call") item

unfoldable pub orphan_loop : Option (Text → Option Text) → ℕ → List Text → List Json → Repaired
orphan_loop resolver index seen [] = ([], [])
orphan_loop resolver index seen (raw ∷ rest) =
    let call_id = tool_item_call_id raw in
    let after_call = keep raw (orphan_loop resolver (suc index) (add_id call_id seen) rest) in
    let kept = keep raw (orphan_loop resolver (suc index) seen rest) in
    let after_output : Repaired = elim call_id [
      | none ↦ kept
      | some k ↦
          let repaired =
            keep (synthetic_tool_call_item k (custom_output raw) (resolve resolver k)) (
              keep raw (
                warn (synthesized_call index raw k (resolve resolver k))
                  (orphan_loop resolver (suc index) (k ∷ seen) rest))) in
          if mem k seen then kept else repaired
    ] in
    if is_call raw then after_call else if is_output raw then after_output else kept

unfoldable pub synthesize_orphan_tool_calls : Option (Text → Option Text) → List Json → Repaired
unfolding orphan_loop ids_of
synthesize_orphan_tool_calls resolver items = orphan_loop resolver 0 (ids_of is_call items) items

unfoldable pub missing_loop : List Text → List Json → Repaired
missing_loop answered [] = ([], [])
missing_loop answered (raw ∷ rest) =
    let kept = keep raw (missing_loop answered rest) in
    let after_call : Repaired = elim (tool_item_call_id raw) [
      | none ↦ kept
      | some k ↦
          let repaired = keep raw (
            keep (synthetic_tool_output_item k (custom_call raw))
              (warn (synthesized_output raw k) (missing_loop (k ∷ answered) rest))) in
          if mem k answered then kept else repaired
    ] in
    if is_call raw then after_call else kept

unfoldable pub synthesize_missing_tool_outputs : List Json → Repaired
unfolding missing_loop ids_of
synthesize_missing_tool_outputs items = missing_loop (ids_of is_output items) items
