-- ===== src/Pipeline/Cleared.antt =====
-- `is_persisted_response_item_id` and `clear_persisted_lookup_ids`.
pub mod Lookups
use codex_shim.Prelude.{
  ℕ, zero, suc, Bool, true, false, not, ◌&&◌, ◌||◌, Option, none, some, List, [], ◌∷◌, ◌++◌, Text,
  codes, nat_eq, leb, length, if◌then◌else◌,
}
use codex_shim.Json.{Json, str, store, remove}
use codex_shim.Pipeline.Items.{text_field, nonempty_text, has_type}
use codex_shim.Pipeline.Ids.{map_fields}

abbrev pub is_lower : ℕ → Bool
is_lower c = leb b'a' c && leb c b'z'

abbrev pub is_digit : ℕ → Bool
is_digit c = leb b'0' c && leb c b'9'

abbrev pub is_hex_char : ℕ → Bool
is_hex_char c = is_digit c || leb b'a' c && leb c b'f'

unfoldable pub all_hex : Text → Bool
all_hex [] = true
all_hex (c ∷ t) = is_hex_char c && all_hex t

-- [a-z0-9]*_[0-9a-f]{32,}
unfoldable pub matches_tail : Text → Bool
matches_tail [] = false
matches_tail (c ∷ t) =
    let deeper = (is_lower c || is_digit c) && matches_tail t in
    if nat_eq c b'_' then all_hex t && leb 32 (length t) else deeper

-- ^[a-z][a-z0-9]*_[0-9a-f]{32,}$
unfoldable pub is_persisted_response_item_id : Text → Bool
unfolding matches_tail all_hex
is_persisted_response_item_id [] = false
is_persisted_response_item_id (c ∷ t) = is_lower c && matches_tail t

-- _TOOL_CALL_ID_PREFIX.get(item["type"])
abbrev pub tool_call_id_prefix : Json → Option Text
tool_call_id_prefix item =
    if has_type (codes "function_call") item
    then some (codes "fc")
    else if has_type (codes "custom_tool_call") item
    then some (codes "ctc")
    else none

-- item["id"] = f"{prefix}_{uuid.uuid4()}", or item.pop("id"); the number counts the drawn uuids
unfoldable pub clear_item : (ℕ → Text) → ℕ → Option Text → Json → Json
unfolding store remove
clear_item uuid drawn (some prefix) item =
    map_fields (store (codes "id") (str (prefix ++ b'_' ∷ uuid drawn))) item
clear_item uuid drawn none item = map_fields (remove (codes "id")) item

abbrev pub draw : Option Text → ℕ → ℕ
draw (some prefix) drawn = suc drawn
draw none drawn = drawn

-- whether an item's id is cleared
unfoldable pub is_cleared : Bool → Json → Bool
unfolding is_persisted_response_item_id text_field
is_cleared drop_all item = elim (nonempty_text (text_field (codes "id") item)) [
  | none ↦ false
  | some item_id ↦ drop_all || is_persisted_response_item_id item_id
]

unfoldable pub clear_loop : (ℕ → Text) → Bool → ℕ → List Json → List Json × ℕ
clear_loop uuid drop_all drawn [] = ([], 0)
clear_loop uuid drop_all drawn (raw ∷ rest) =
    let prefix = tool_call_id_prefix raw in
    let kept = clear_loop uuid drop_all drawn rest in
    let after = clear_loop uuid drop_all (draw prefix drawn) rest in
    if is_cleared drop_all raw
    then (clear_item uuid drawn prefix raw ∷ after.0, suc after.1)
    else (raw ∷ kept.0, kept.1)

unfoldable pub clear_persisted_lookup_ids : (ℕ → Text) → Bool → List Json → List Json × ℕ
unfolding clear_loop is_cleared clear_item
clear_persisted_lookup_ids uuid drop_all items = clear_loop uuid drop_all 0 items
