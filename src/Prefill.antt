-- ===== src/Prefill.antt =====
-- codex_shim/net/prefill.py: when a cut stream is continued, and how the text that the upstream
-- repeats is left out.
pub mod Replay
pub mod Message
use codex_shim.Prelude.{
  ℕ, zero, suc, ◌+◌, Bool, true, false, not, ◌&&◌, ◌||◌, Option, none, some, List, [], ◌∷◌, ◌++◌,
  Text, codes, ltb, leb, nat_eq, text_eq, length, drop, is_empty, if◌then◌else◌,
}
use codex_shim.Json.{Json, str, Fields, find, store, remove}
use codex_shim.Pipeline.Items.{text_field, is_text}

abbrev pub max_prefill_continues : ℕ
max_prefill_continues = 3

unfoldable pub is_conclusive_finish : Option Text → Bool → Bool
unfolding text_eq
is_conclusive_finish finish_reason saw_done =
    saw_done || is_text (codes "stop") finish_reason || is_text (codes "tool_calls") finish_reason

unfoldable pub should_prefill_continue : Option Text → Bool → ℕ → Bool → Bool
unfolding is_conclusive_finish text_eq
should_prefill_continue finish_reason saw_done continues as_responses =
    if not as_responses
    then false
    else if leb max_prefill_continues continues
    then false
    else if is_text (codes "length") finish_reason
    then false
    else not (is_conclusive_finish finish_reason saw_done)

-- isinstance(message, dict) and message.get("role") == "assistant"
unfoldable pub is_assistant : Json → Bool
unfolding text_field find text_eq
is_assistant message = is_text (codes "assistant") (text_field (codes "role") message)

unfoldable pub with_assistant_prefill : List Json → Json → List Json
with_assistant_prefill [] prefill = prefill ∷ []
with_assistant_prefill (message ∷ []) prefill =
    if is_assistant message then prefill ∷ [] else message ∷ prefill ∷ []
with_assistant_prefill (message ∷ next ∷ messages) prefill =
    message ∷ with_assistant_prefill (next ∷ messages) prefill

-- The rounds of `while ... prefix[index] == incoming[offset]`, on what is left of both.
unfoldable pub matching : Text → Text → ℕ
matching [] incoming = 0
matching (a ∷ prefix) [] = 0
matching (a ∷ prefix) (b ∷ incoming) =
    let rest = matching prefix incoming in if nat_eq a b then suc rest else 0

-- `none` is the count -1, after which nothing is skipped any more.
unfoldable pub skip_replayed_prefix : Text → Text → Option ℕ → Text × Option ℕ
unfolding matching
skip_replayed_prefix prefix incoming none = (incoming, none)
skip_replayed_prefix prefix incoming (some skipped) =
    let offset = matching (drop skipped prefix) incoming in
    let index = skipped + offset in
    if is_empty prefix || leb (length prefix) skipped
    then (incoming, some skipped)
    else if ltb offset (length incoming) && ltb index (length prefix)
    then (incoming, if nat_eq offset 0 then some skipped else none)
    else (drop offset incoming, some index)

-- the text of `ReplaySkipper`
pub record Skipper : Type 0 where
  pub text_prefix : Text
  pub text_skipped : Option ℕ

-- ReplaySkipper.__init__
abbrev pub new_skipper : Text → Skipper
new_skipper prefix = record { text_prefix = prefix; text_skipped = some 0 }

-- new_delta["content"] = emitted, or new_delta.pop("content", None)
abbrev pub set_content : Text → Fields → Fields
set_content [] delta = remove (codes "content") delta
set_content (c ∷ t) delta = store (codes "content") (str (c ∷ t)) delta

abbrev pub emit : Option Json → Skipper → Fields → Skipper × Fields
emit (some (str (c ∷ t))) s delta =
    let (emitted, skipped) = skip_replayed_prefix s.text_prefix (c ∷ t) s.text_skipped in
    (record s { text_skipped = skipped }, set_content emitted delta)
emit _ s delta = (s, delta)

-- filter_chunk on the content of a delta
unfoldable pub filter_content : Skipper → Fields → Skipper × Fields
unfolding skip_replayed_prefix find store remove text_eq
filter_content s delta = emit (find (codes "content") delta) s delta

-- The content of the deltas that leave the skipper, for the contents of those that enter it.
unfoldable pub filter_texts : Text → Option ℕ → List Text → Text
unfolding skip_replayed_prefix
filter_texts prefix skipped [] = []
filter_texts prefix skipped (chunk ∷ chunks) =
    let (emitted, skipped') = skip_replayed_prefix prefix chunk skipped in
    emitted ++ filter_texts prefix skipped' chunks
