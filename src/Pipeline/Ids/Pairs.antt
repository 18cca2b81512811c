-- ===== src/Pipeline/Ids/Pairs.antt =====
-- Aligning keeps a call and its output together.
use codex_shim.Prelude.{
  ◌≡◌, refl, ap, ◌∙◌, Bool, true, false, ◌||◌, Option, none, some, [], ◌∷◌, Text, codes, text_eq,
  strip, is_empty, arith, Bool-cases, inl, inr, if◌then◌else◌,
}
use codex_shim.Json.{
  Json, null, bool, int, str, arr, obj, Fields, find, remove, find-store, find-remove,
}
use codex_shim.Pipeline.Items.{text_field, as_text, is_call, is_output, has_type}
use codex_shim.Pipeline.Ids.{
  responses_function_call_ids, id_source, apply_ids, set_call_id, strip_output_id, align_item,
}

abbrev pub canonical : Text → Text
canonical k = (responses_function_call_ids k).1

nonblank_source :
    (py_str : Json → Text) (k : Text)
    → is_empty (strip k) ≡ false
    → (item_id : Option Json) → id_source py_str (some (str k)) item_id ≡ k
unfolding strip
nonblank_source py_str [] named item_id = cc
nonblank_source py_str (c ∷ k) named item_id = refl

as_text_of : (o : Option Json) (k : Text) → as_text o ≡ some k → o ≡ some (str k)
as_text_of none k h = cc
as_text_of (some (str t)) k h = cc
as_text_of (some null) k h = cc
as_text_of (some (bool b)) k h = cc
as_text_of (some (int n)) k h = cc
as_text_of (some (arr xs)) k h = cc
as_text_of (some (obj d)) k h = cc

module _ (py_str : Json → Text) (k : Text) (named : is_empty (strip k) ≡ false) where
  apply_ids-call_id :
      (d : Fields)
      → find (codes "call_id") d ≡ some (str k)
      → find (codes "call_id") (apply_ids py_str d) ≡ some (str (canonical k))
  unfolding apply_ids
  apply_ids-call_id d h =
      let source : id_source py_str (find (codes "call_id") d) (find (codes "id") d) ≡ k =
        rw h (nonblank_source py_str k named (find (codes "id") d)) in
      rw (find-store (codes "call_id") (codes "call_id"))
        (ap (λ t. some (str (canonical t))) source)

  set_call_id-call_id :
      (d : Fields) → find (codes "call_id") (set_call_id (some k) d) ≡ some (str (canonical k))
  unfolding set_call_id
  set_call_id-call_id d = rw named (rw (find-store (codes "call_id") (codes "call_id")) refl)

  if_removed :
      (b : Bool) (out : Fields)
      → find (codes "call_id") out ≡ some (str (canonical k))
      → find (codes "call_id") (if b then remove (codes "id") out else out)
        ≡ some (str (canonical k))
  unfolding text_eq
  if_removed true out h = find-remove (codes "id") (codes "call_id") out ∙ h
  if_removed false out h = h

  strip_output_id-call_id :
      (d : Fields)
      → find (codes "call_id") d ≡ some (str k)
      → find (codes "call_id") (strip_output_id d) ≡ some (str (canonical k))
  unfolding strip_output_id
  strip_output_id-call_id d h =
      if_removed _ (set_call_id (as_text (find (codes "call_id") d)) d)
        (ap (λ o. find (codes "call_id") (set_call_id (as_text o) d)) h ∙ set_call_id-call_id d)

  aligned_fields :
      (d : Fields)
      → (is_call (obj d) || is_output (obj d)) ≡ true
      → find (codes "call_id") d ≡ some (str k)
      → text_field (codes "call_id") (align_item py_str (obj d)) ≡ some (canonical k)
  unfolding align_item text_field is_call
  aligned_fields d tool h = elim (Bool-cases (has_type (codes "function_call") (obj d))) [
    | inl call ↦ rw (call, apply_ids-call_id d h) refl
    | inr not_call ↦ elim (Bool-cases (is_output (obj d))) [
      | inl output ↦ rw (not_call, output, strip_output_id-call_id d h) refl
      | inr not_output ↦
          let custom : has_type (codes "custom_tool_call") (obj d) ≡ true = ground arith in
          rw (not_call, not_output, custom)
            (ap (λ o. as_text (find (codes "call_id") (set_call_id (as_text o) d))) h
              ∙ ap as_text (set_call_id-call_id d))
    ]
  ]

  -- A tool call or a tool output whose call id is a string that is not blank has, after alignment, the
  -- canonical form of that id as its call id, so that a call and its output still agree.
  pub align_item-call_id :
      (item : Json)
      → (is_call item || is_output item) ≡ true
      → text_field (codes "call_id") item ≡ some k
      → text_field (codes "call_id") (align_item py_str item) ≡ some (canonical k)
  unfolding text_field
  align_item-call_id (obj d) tool h =
      aligned_fields d tool (as_text_of (find (codes "call_id") d) k h)
  align_item-call_id null tool h = cc
  align_item-call_id (bool b) tool h = cc
  align_item-call_id (int n) tool h = cc
  align_item-call_id (str t) tool h = cc
  align_item-call_id (arr xs) tool h = cc
