-- ===== src/Pipeline/Orphans/Kept.antt =====
-- The repairs only insert items.
use codex_shim.Prelude.{
  ℕ, suc, Option, List, [], ◌∷◌, Text, mem, Bool-cases, Option-cases, inl, inr,
}
use codex_shim.Json.{Json}
use codex_shim.Pipeline.Items.{is_call, is_output, tool_item_call_id}
use codex_shim.Pipeline.Orphans.{
  orphan_loop, synthesize_orphan_tool_calls, missing_loop, synthesize_missing_tool_outputs, add_id,
  ids_of,
}
use codex_shim.Pipeline.Orphans.Pairing.{repair}

-- `ys` has the items of `xs` in their order, and others between them.
pub data Extends : List Json → List Json → Type 0 where
  stop : Extends [] []
  same : {xs ys : List Json} (x : Json) → Extends xs ys → Extends (x ∷ xs) (x ∷ ys)
  more : {xs ys : List Json} (y : Json) → Extends xs ys → Extends xs (y ∷ ys)

Extends-trans : {xs ys zs : List Json} → Extends xs ys → Extends ys zs → Extends xs zs
Extends-trans s stop = s
Extends-trans (same x s) (same _ t) = same x (Extends-trans s t)
Extends-trans (more y s) (same _ t) = more y (Extends-trans s t)
Extends-trans s (more z t) = more z (Extends-trans s t)

orphan_loop-Extends :
    (resolver : Option (Text → Option Text)) (index : ℕ) (seen : List Text) (items : List Json)
    → Extends items (orphan_loop resolver index seen items).0
unfolding orphan_loop
orphan_loop-Extends resolver index seen [] = stop
orphan_loop-Extends resolver index seen (raw ∷ rest) = elim (Bool-cases (is_call raw)) [
  | inl call ↦ rw call (
      same raw
        (orphan_loop-Extends resolver (suc index) (add_id (tool_item_call_id raw) seen) rest))
  | inr not_call ↦
      let kept = same raw (orphan_loop-Extends resolver (suc index) seen rest) in
      elim (Bool-cases (is_output raw)) [
        | inr plain ↦ rw (not_call, plain) kept
        | inl output ↦ elim (Option-cases (tool_item_call_id raw)) [
          | inl anonymous ↦ rw (not_call, output, anonymous) kept
          | inr (k, here) ↦ elim (Bool-cases (mem k seen)) [
            | inl known ↦ rw (not_call, output, here, known) kept
            | inr orphan ↦
                rw (not_call, output, here, orphan)
                  (more _ (same raw (orphan_loop-Extends resolver (suc index) (k ∷ seen) rest)))
          ]
        ]
      ]
]

missing_loop-Extends :
    (answered : List Text) (items : List Json) → Extends items (missing_loop answered items).0
unfolding missing_loop
missing_loop-Extends answered [] = stop
missing_loop-Extends answered (raw ∷ rest) =
    let kept = same raw (missing_loop-Extends answered rest) in
    elim (Bool-cases (is_call raw)) [
      | inr plain ↦ rw plain kept
      | inl call ↦ elim (Option-cases (tool_item_call_id raw)) [
        | inl anonymous ↦ rw (call, anonymous) kept
        | inr (k, here) ↦ elim (Bool-cases (mem k answered)) [
          | inl known ↦ rw (call, here, known) kept
          | inr open_call ↦
              rw (call, here, open_call)
                (same raw (more _ (missing_loop-Extends (k ∷ answered) rest)))
        ]
      ]
    ]

-- The repairs drop, change and reorder no item: they only insert.
pub repair-Extends :
    (resolver : Option (Text → Option Text)) (items : List Json)
    → Extends items (repair resolver items).0
unfolding synthesize_orphan_tool_calls synthesize_missing_tool_outputs
repair-Extends resolver items =
    Extends-trans (orphan_loop-Extends resolver 0 (ids_of is_call items) items)
      (missing_loop-Extends _ (orphan_loop resolver 0 (ids_of is_call items) items).0)
