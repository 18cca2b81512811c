-- ===== src/Pipeline/Cleared/Lookups.antt =====
-- What `clear_persisted_lookup_ids` leaves: no id that the backend would look up, and every call id.
use codex_shim.Prelude.{
  ℕ, ◌≡◌, refl, ap, sym, ◌∙◌, Bool, true, false, Option, none, some, List, [], ◌∷◌, ◌++◌, Text,
  codes, text_eq, nat_eq, arith, All, Bool-cases, ◌⊎◌, inl, inr, any_of,
}
use codex_shim.Json.{Json, null, str, obj, find, store, remove, find-store, find-remove}
use codex_shim.Pipeline.Items.{text_field, as_text, has_type, is_call, is_output, tool_item_call_id}
use codex_shim.Pipeline.Orphans.{ids_of}
use codex_shim.Pipeline.Cleared.{
  all_hex, matches_tail, is_persisted_response_item_id, tool_call_id_prefix, clear_item, draw,
  is_cleared, clear_loop, clear_persisted_lookup_ids,
}

-- A UUID in its usual text form has hyphens.
abbrev pub HasHyphen : Text → Type 0
HasHyphen t = any_of (λ c. nat_eq c b'-') t ≡ true

-- No id that the backend would look up.
abbrev pub NoLookup : Json → Type 0
NoLookup item =
    (t : Text) → text_field (codes "id") item ≡ some t → is_persisted_response_item_id t ≡ false

all_hex-hyphen : (t : Text) → HasHyphen t → all_hex t ≡ false
unfolding all_hex
all_hex-hyphen [] h = cc
all_hex-hyphen (c ∷ t) h = ground (arith, all_hex-hyphen t)

fresh_id :
    (item : Json) (u : Text) (p : Text)
    → tool_call_id_prefix item ≡ some p
    → HasHyphen u
    → is_persisted_response_item_id (p ++ b'_' ∷ u) ≡ false
unfolding is_persisted_response_item_id matches_tail
fresh_id item u p e h = elim (Bool-cases (has_type (codes "function_call") item)) [
  | inl call ↦ let fc : p ≡ codes "fc" = ground arith in rw (fc, all_hex-hyphen u h) refl
  | inr other ↦ let ctc : p ≡ codes "ctc" = ground arith in rw (ctc, all_hex-hyphen u h) refl
]

module _ (uuid : ℕ → Text) (n : ℕ) where
  -- Only the id changes.
  text_field-clear_item :
      (prefix : Option Text) (k : Text) (item : Json)
      → text_eq (codes "id") k ≡ false
      → text_field k (clear_item uuid n prefix item) ≡ text_field k item
  unfolding clear_item text_field
  text_field-clear_item (some p) k (obj d) ne = ap as_text (rw (find-store (codes "id") k, ne) refl)
  text_field-clear_item none k (obj d) ne = ap as_text (rw (find-remove (codes "id") k, ne) refl)
  text_field-clear_item (some p) k null ne = refl
  text_field-clear_item (some p) k _ ne = refl
  text_field-clear_item none k null ne = refl
  text_field-clear_item none k _ ne = refl

  clear_item-NoLookup :
      (prefix : Option Text) (item : Json)
      → tool_call_id_prefix item ≡ prefix
      → HasHyphen (uuid n)
      → NoLookup (clear_item uuid n prefix item)
  unfolding clear_item text_field text_eq
  clear_item-NoLookup (some p) (obj d) e h t at =
      let v = str (p ++ b'_' ∷ uuid n) in
      let stored : find (codes "id") (store (codes "id") v d) ≡ some v =
        rw (find-store (codes "id") (codes "id")) refl in
      let new : as_text (some v) ≡ some t = ap as_text (sym stored) ∙ at in
      let same : p ++ b'_' ∷ uuid n ≡ t = cc in rw (← same) (fresh_id (obj d) (uuid n) p e h)
  clear_item-NoLookup none (obj d) e h t at =
      let removed : find (codes "id") (remove (codes "id") d) ≡ none =
        rw (find-remove (codes "id") (codes "id")) refl in
      let gone : as_text none ≡ some t = ap as_text (sym removed) ∙ at in cc
  clear_item-NoLookup (some p) null e h t at = cc
  clear_item-NoLookup (some p) _ e h t at = cc
  clear_item-NoLookup none null e h t at = cc
  clear_item-NoLookup none _ e h t at = cc

kept-NoLookup : (drop_all : Bool) (item : Json) → is_cleared drop_all item ≡ false → NoLookup item
unfolding is_cleared
kept-NoLookup drop_all item e [] at = unfold is_persisted_response_item_id in refl
kept-NoLookup drop_all item e (c ∷ t) at = ground arith

clear_loop-NoLookup :
    (uuid : ℕ → Text) (hyphens : (n : ℕ) → HasHyphen (uuid n)) (drop_all : Bool) (n : ℕ)
    (items : List Json)
    → All NoLookup (clear_loop uuid drop_all n items).0
unfolding clear_loop
clear_loop-NoLookup uuid hyphens drop_all n [] = tt
clear_loop-NoLookup uuid hyphens drop_all n (raw ∷ rest) =
    elim (Bool-cases (is_cleared drop_all raw)) [
      | inl clear ↦ rw clear (
        clear_item-NoLookup uuid n (tool_call_id_prefix raw) raw refl (hyphens n),
        clear_loop-NoLookup uuid hyphens drop_all (draw (tool_call_id_prefix raw) n) rest,
      )
      | inr kept ↦
          rw kept
            (kept-NoLookup drop_all raw kept, clear_loop-NoLookup uuid hyphens drop_all n rest)
    ]

-- No item has, after clearing, an id of the form that the backend would look up, given that the
-- text of every UUID has a hyphen.
pub clear_persisted_lookup_ids-NoLookup :
    (uuid : ℕ → Text) (drop_all : Bool) (items : List Json)
    → ((n : ℕ) → HasHyphen (uuid n))
    → All NoLookup (clear_persisted_lookup_ids uuid drop_all items).0
unfolding clear_persisted_lookup_ids
clear_persisted_lookup_ids-NoLookup uuid drop_all items hyphens =
    clear_loop-NoLookup uuid hyphens drop_all 0 items

-- An id that no client supplied: none, or one that was made of a new UUID.
abbrev pub IsFresh : (ℕ → Text) → Json → Type 0
IsFresh uuid item =
    (t : Text)
    → text_field (codes "id") item ≡ some t
    → (t ≡ []) ⊎ ((prefix : Text) × (n : ℕ) × (t ≡ prefix ++ b'_' ∷ uuid n))

clear_item-IsFresh :
    (uuid : ℕ → Text) (n : ℕ) (prefix : Option Text) (item : Json)
    → IsFresh uuid (clear_item uuid n prefix item)
unfolding clear_item text_field text_eq
clear_item-IsFresh uuid n (some p) (obj d) t at =
    let v = str (p ++ b'_' ∷ uuid n) in
    let stored : find (codes "id") (store (codes "id") v d) ≡ some v =
      rw (find-store (codes "id") (codes "id")) refl in
    let new : as_text (some v) ≡ some t = ap as_text (sym stored) ∙ at in
    let same : t ≡ p ++ b'_' ∷ uuid n = cc in inr (p, n, same)
clear_item-IsFresh uuid n none (obj d) t at =
    let removed : find (codes "id") (remove (codes "id") d) ≡ none =
      rw (find-remove (codes "id") (codes "id")) refl in
    let gone : as_text none ≡ some t = ap as_text (sym removed) ∙ at in cc
clear_item-IsFresh uuid n (some p) null t at = cc
clear_item-IsFresh uuid n (some p) _ t at = cc
clear_item-IsFresh uuid n none null t at = cc
clear_item-IsFresh uuid n none _ t at = cc

kept-IsFresh : (uuid : ℕ → Text) (item : Json) → is_cleared true item ≡ false → IsFresh uuid item
unfolding is_cleared
kept-IsFresh uuid item e [] at = inl refl
kept-IsFresh uuid item e (c ∷ t) at = ground arith

clear_loop-IsFresh :
    (uuid : ℕ → Text) (n : ℕ) (items : List Json)
    → All (IsFresh uuid) (clear_loop uuid true n items).0
unfolding clear_loop
clear_loop-IsFresh uuid n [] = tt
clear_loop-IsFresh uuid n (raw ∷ rest) = elim (Bool-cases (is_cleared true raw)) [
  | inl clear ↦ rw clear (
    clear_item-IsFresh uuid n (tool_call_id_prefix raw) raw,
    clear_loop-IsFresh uuid (draw (tool_call_id_prefix raw) n) rest,
  )
  | inr kept ↦ rw kept (kept-IsFresh uuid raw kept, clear_loop-IsFresh uuid n rest)
]

pub clear_persisted_lookup_ids-IsFresh :
    (uuid : ℕ → Text) (items : List Json)
    → All (IsFresh uuid) (clear_persisted_lookup_ids uuid true items).0
unfolding clear_persisted_lookup_ids
clear_persisted_lookup_ids-IsFresh uuid items = clear_loop-IsFresh uuid 0 items

-- What `ids_of` reads of an item does not change.
clear_item-kind :
    (uuid : ℕ → Text) (n : ℕ) (prefix : Option Text) (item : Json)
    → let item' = clear_item uuid n prefix item in
      (is_call item' ≡ is_call item)
      × (is_output item' ≡ is_output item)
      × (tool_item_call_id item' ≡ tool_item_call_id item)
unfolding is_call is_output tool_item_call_id text_eq
clear_item-kind uuid n prefix item = (
  rw (text_field-clear_item uuid n prefix (codes "type") item refl) refl,
  rw (text_field-clear_item uuid n prefix (codes "type") item refl) refl,
  rw (text_field-clear_item uuid n prefix (codes "call_id") item refl) refl,
)

ids_of-clear_loop :
    (uuid : ℕ → Text) (drop_all : Bool) (n : ℕ) (items : List Json)
    → (ids_of is_call (clear_loop uuid drop_all n items).0 ≡ ids_of is_call items)
      × (ids_of is_output (clear_loop uuid drop_all n items).0 ≡ ids_of is_output items)
unfolding clear_loop ids_of
ids_of-clear_loop uuid drop_all n [] = (refl, refl)
ids_of-clear_loop uuid drop_all n (raw ∷ rest) = ground (
  arith,
  ids_of-clear_loop uuid drop_all n rest,
  ids_of-clear_loop uuid drop_all (draw (tool_call_id_prefix raw) n) rest,
  clear_item-kind uuid n (tool_call_id_prefix raw) raw,
)

-- Clearing keeps the call ids of the tool calls and those of the tool outputs, in their order.
pub ids_of-clear_persisted_lookup_ids :
    (uuid : ℕ → Text) (drop_all : Bool) (items : List Json)
    → (ids_of is_call (clear_persisted_lookup_ids uuid drop_all items).0 ≡ ids_of is_call items)
      × (ids_of is_output (clear_persisted_lookup_ids uuid drop_all items).0
          ≡ ids_of is_output items)
unfolding clear_persisted_lookup_ids
ids_of-clear_persisted_lookup_ids uuid drop_all items = ids_of-clear_loop uuid drop_all 0 items
