-- ===== src/Pipeline/Orphans/Pairing.antt =====
-- After both repairs each tool output has its call and each call its output.
use codex_shim.Prelude.{
  ℕ, suc, ◌≡◌, refl, Bool, true, false, ◌||◌, inl, inr, Option, none, some, List, [], ◌∷◌, ◌++◌,
  Text, codes, text_eq, text_eq_iff, mem, arith, Option-cases,
}
use codex_shim.Json.{Json}
use codex_shim.Pipeline.Items.{
  text_field, is_text, nonempty_text, is_call, is_output, tool_item_call_id,
  synthetic_tool_call_item, synthetic_tool_output_item,
}
use codex_shim.Pipeline.Orphans.{
  Repaired, add_id, ids_of, resolve, custom_output, custom_call, orphan_loop,
  synthesize_orphan_tool_calls, missing_loop, synthesize_missing_tool_outputs,
}

-- The call ids of the tool calls, and those of the tool outputs.
abbrev pub call_ids : List Json → List Text
call_ids items = ids_of is_call items

abbrev pub output_ids : List Json → List Text
output_ids items = ids_of is_output items

-- Every tool output has a call with its id, and every tool call an output.
pub record IsPaired (items : List Json) : Type 0 where
  pub calls : (k : Text) → mem k (output_ids items) ≡ true → mem k (call_ids items) ≡ true
  pub outputs : (k : Text) → mem k (call_ids items) ≡ true → mem k (output_ids items) ≡ true

-- The synthesized items are what they are called.
is_call-synthetic :
    (k : Text) (custom : Bool) (name : Option Text)
    → (is_call (synthetic_tool_call_item k custom name) ≡ true)
      × (is_output (synthetic_tool_call_item k custom name) ≡ false)
      × (tool_item_call_id (synthetic_tool_call_item k custom name) ≡ nonempty_text (some k))
unfolding synthetic_tool_call_item is_call is_output tool_item_call_id
is_call-synthetic k true name = (refl, refl, refl)
is_call-synthetic k false name = (refl, refl, refl)

is_output-synthetic :
    (k : Text) (custom : Bool)
    → (is_call (synthetic_tool_output_item k custom) ≡ false)
      × (is_output (synthetic_tool_output_item k custom) ≡ true)
      × (tool_item_call_id (synthetic_tool_output_item k custom) ≡ nonempty_text (some k))
unfolding synthetic_tool_output_item is_call is_output tool_item_call_id
is_output-synthetic k true = (refl, refl, refl)
is_output-synthetic k false = (refl, refl, refl)

nonempty_twice :
    (o : Option Text) → (k : Text) → nonempty_text o ≡ some k → nonempty_text (some k) ≡ some k
nonempty_twice (some (c ∷ t)) [] e = ground arith
nonempty_twice (some (c ∷ t)) (d ∷ k) e = refl
nonempty_twice (some []) k e = cc
nonempty_twice none k e = cc

call_id-nonempty :
    (item : Json) (k : Text) → tool_item_call_id item ≡ some k → nonempty_text (some k) ≡ some k
unfolding tool_item_call_id
call_id-nonempty item k e = nonempty_twice _ k e

exclusive_text :
    (t : Option Text)
    → (is_text (codes "function_call") t || is_text (codes "custom_tool_call") t) ≡ true
    → (is_text (codes "function_call_output") t || is_text (codes "custom_tool_call_output") t)
      ≡ false
unfolding text_eq
exclusive_text none h = cc
exclusive_text (some t) h = ground (
  arith,
  text_eq_iff t (codes "function_call"),
  text_eq_iff t (codes "custom_tool_call"),
  text_eq_iff t (codes "function_call_output"),
  text_eq_iff t (codes "custom_tool_call_output"),
)

exclusive : (item : Json) → is_call item ≡ true → is_output item ≡ false
unfolding is_call is_output
exclusive item h = exclusive_text (text_field (codes "type") item) h

module _ (resolver : Option (Text → Option Text)) where
  orphan_loop-calls :
      (k : Text) (index : ℕ) (seen : List Text) (items : List Json)
      → mem k (call_ids items) ≡ true
      → mem k (call_ids (orphan_loop resolver index seen items).0) ≡ true
  unfolding orphan_loop ids_of mem
  orphan_loop-calls k index seen [] h = h
  orphan_loop-calls k index seen (raw ∷ rest) h = ground (
    arith,
    orphan_loop-calls k (suc index) seen rest,
    orphan_loop-calls k (suc index) (add_id (tool_item_call_id raw) seen) rest,
  )

  -- An output's id was seen, or its call stands among the repaired items.
  orphan_loop-outputs :
      (k : Text) (index : ℕ) (seen : List Text) (items : List Json)
      → mem k (output_ids (orphan_loop resolver index seen items).0) ≡ true
      → (mem k seen || mem k (call_ids (orphan_loop resolver index seen items).0)) ≡ true
  unfolding orphan_loop ids_of mem
  orphan_loop-outputs k index seen [] h = cc
  orphan_loop-outputs k index seen (raw ∷ rest) h = elim (Option-cases (tool_item_call_id raw)) [
    | inl none_there ↦
        ground (arith, none_there, orphan_loop-outputs k (suc index) seen rest, exclusive raw)
    | inr (j, here) ↦ ground (
      arith,
      here,
      orphan_loop-outputs k (suc index) seen rest,
      orphan_loop-outputs k (suc index) (j ∷ seen) rest,
      exclusive raw,
      is_call-synthetic j (custom_output raw) (resolve resolver j),
      call_id-nonempty raw j here,
      text_eq_iff j k,
    )
  ]

missing_loop-calls :
    (k : Text) (answered : List Text) (items : List Json)
    → mem k (call_ids (missing_loop answered items).0) ≡ mem k (call_ids items)
unfolding missing_loop ids_of mem
missing_loop-calls k answered [] = refl
missing_loop-calls k answered (raw ∷ rest) = elim (Option-cases (tool_item_call_id raw)) [
  | inl none_there ↦ ground (arith, none_there, missing_loop-calls k answered rest)
  | inr (j, here) ↦ ground (
    arith,
    here,
    missing_loop-calls k answered rest,
    missing_loop-calls k (j ∷ answered) rest,
    is_output-synthetic j (custom_call raw),
  )
]

-- Outputs are kept, and each unanswered call gets one.
missing_loop-outputs :
    (k : Text) (answered : List Text) (items : List Json)
    → (mem k (output_ids items) ≡ true → mem k (output_ids (missing_loop answered items).0) ≡ true)
      × (mem k (call_ids items) ≡ true
          → (mem k answered || mem k (output_ids (missing_loop answered items).0)) ≡ true)
      × (mem k (output_ids (missing_loop answered items).0) ≡ true
          → (mem k (output_ids items) || mem k (call_ids items)) ≡ true)
unfolding missing_loop ids_of mem
missing_loop-outputs k answered [] = (λ h. h, λ h. cc, λ h. cc)
missing_loop-outputs k answered (raw ∷ rest) = elim (Option-cases (tool_item_call_id raw)) [
  | inl none_there ↦ ground (arith, none_there, missing_loop-outputs k answered rest, exclusive raw)
  | inr (j, here) ↦ ground (
    arith,
    here,
    missing_loop-outputs k answered rest,
    missing_loop-outputs k (j ∷ answered) rest,
    exclusive raw,
    is_output-synthetic j (custom_call raw),
    call_id-nonempty raw j here,
    text_eq_iff j k,
  )
]

-- The two repairs, as `prepare_responses_input_items` runs them.
abbrev pub repair : Option (Text → Option Text) → List Json → Repaired
repair resolver items =
    let (called, warnings) = synthesize_orphan_tool_calls resolver items in
    let (answered, extra) = synthesize_missing_tool_outputs called in (answered, warnings ++ extra)

-- After both repairs every tool output has a tool call with its id, and every tool call an output,
-- whatever the items were and whatever names the resolver knows.
pub repair-IsPaired :
    (resolver : Option (Text → Option Text)) (items : List Json)
    → IsPaired (repair resolver items).0
unfolding synthesize_orphan_tool_calls synthesize_missing_tool_outputs
repair-IsPaired resolver items =
    let called = (orphan_loop resolver 0 (call_ids items) items).0 in
    record {
      calls = λ k h. ground (
        arith,
        missing_loop-outputs k (output_ids called) called,
        missing_loop-calls k (output_ids called) called,
        orphan_loop-outputs resolver k 0 (call_ids items) items,
        orphan_loop-calls resolver k 0 (call_ids items) items,
      );
      outputs = λ k h. ground (
        arith,
        missing_loop-outputs k (output_ids called) called,
        missing_loop-calls k (output_ids called) called,
      );
    }

orphan_loop-IsPaired :
    (resolver : Option (Text → Option Text)) (index : ℕ) (seen : List Text) (items : List Json)
    → ((k : Text) → mem k (output_ids items) ≡ true → mem k seen ≡ true)
    → orphan_loop resolver index seen items ≡ (items, [])
unfolding orphan_loop ids_of mem
orphan_loop-IsPaired resolver index seen [] h = refl
orphan_loop-IsPaired resolver index seen (raw ∷ rest) h =
    elim (Option-cases (tool_item_call_id raw)) [
      | inl none_there ↦ ground (
        arith,
        none_there,
        exclusive raw,
        orphan_loop-IsPaired resolver (suc index) seen rest
            (λ k m. ground (arith, none_there, h k)),
      )
      | inr (j, here) ↦ ground (
        arith,
        here,
        exclusive raw,
        h j,
        text_eq_iff j j,
        orphan_loop-IsPaired resolver (suc index) seen rest (λ k m. ground (arith, here, h k)),
        orphan_loop-IsPaired resolver (suc index) (j ∷ seen) rest
            (λ k m. ground (arith, here, h k)),
      )
    ]

missing_loop-IsPaired :
    (answered : List Text) (items : List Json)
    → ((k : Text) → mem k (call_ids items) ≡ true → mem k answered ≡ true)
    → missing_loop answered items ≡ (items, [])
unfolding missing_loop ids_of mem
missing_loop-IsPaired answered [] h = refl
missing_loop-IsPaired answered (raw ∷ rest) h = elim (Option-cases (tool_item_call_id raw)) [
  | inl none_there ↦ ground (
    arith,
    none_there,
    missing_loop-IsPaired answered rest (λ k m. ground (arith, none_there, h k)),
  )
  | inr (j, here) ↦ ground (
    arith,
    here,
    h j,
    text_eq_iff j j,
    missing_loop-IsPaired answered rest (λ k m. ground (arith, here, h k)),
  )
]

-- Items that are paired already come back as they were, and no warning is given.
pub repair-unchanged :
    (resolver : Option (Text → Option Text)) (items : List Json)
    → IsPaired items
    → repair resolver items ≡ (items, [])
unfolding synthesize_orphan_tool_calls synthesize_missing_tool_outputs
repair-unchanged resolver items p =
    rw (orphan_loop-IsPaired resolver 0 (call_ids items) items p.calls)
      (rw (missing_loop-IsPaired (output_ids items) items p.outputs) refl)
