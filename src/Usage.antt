-- ===== src/Usage.antt =====
-- Token counts: `normalize_responses_usage`, `_int_token` and `_responses_usage_to_anthropic_usage` of
-- codex_shim/translate.py.
use codex_shim.Prelude.{ℕ, suc, ◌+◌, ◌-◌, Option, none, some, Text, codes, leb, if◌then◌else◌}
use codex_shim.Json.{Json, int, obj, ℤ, pos, negsuc, Fields, field, end, find, store}
use codex_shim.Emitters.{set_default}

-- m - k
abbrev pub minus : ℕ → ℕ → ℤ
minus m k = if leb k m then pos (m - k) else negsuc (k - m - 1)

infixl 20 ◌+ℤ◌
abbrev pub ◌+ℤ◌ : ℤ → ℤ → ℤ
pos m +ℤ pos n = pos (m + n)
pos m +ℤ negsuc n = minus m (suc n)
negsuc m +ℤ pos n = minus n (suc m)
negsuc m +ℤ negsuc n = negsuc (m + n + 1)

abbrev pub negate : ℤ → ℤ
negate (pos ℕ.zero) = pos 0
negate (pos (suc n)) = negsuc n
negate (negsuc n) = pos (suc n)

-- max(a - b, 0)
abbrev pub floor_zero : ℤ → ℤ
floor_zero (pos n) = pos n
floor_zero (negsuc n) = pos 0

abbrev pub less_floored : ℤ → ℤ → ℤ
less_floored a b = floor_zero (a +ℤ negate b)

-- _int_token
abbrev pub int_token : Option Json → Option ℤ
int_token (some (int n)) = some n
int_token _ = none

-- the count of one name, else that of the other
unfoldable pub token_of_names : Text → Text → Fields → Option ℤ
unfolding find
token_of_names name other usage = elim (int_token (find name usage)) [
  | some n ↦ some n
  | none ↦ int_token (find other usage)
]

pub record Counts : Type 0 where
  pub input_tokens : ℤ
  pub output_tokens : ℤ
  pub total_tokens : ℤ

abbrev pub counts : ℤ → ℤ → ℤ → Counts
counts i o t = record { input_tokens = i; output_tokens = o; total_tokens = t }

-- The counts that are missing, from the others.
abbrev pub complete_counts : (input output total : Option ℤ) → Counts
complete_counts (some i) (some o) none = counts i o (i +ℤ o)
complete_counts (some i) (some o) (some t) = counts i o t
complete_counts (some i) none (some t) = counts i (less_floored t i) t
complete_counts (some i) none none = counts i (pos 0) (i +ℤ pos 0)
complete_counts none (some o) (some t) = counts (less_floored t o) o t
complete_counts none (some o) none = counts (pos 0) o (pos 0 +ℤ o)
complete_counts none none (some t) = counts (pos 0) (less_floored t (pos 0)) t
complete_counts none none none = counts (pos 0) (pos 0) (pos 0 +ℤ pos 0)

unfoldable pub usage_counts : Fields → Counts
unfolding token_of_names find
usage_counts usage =
    complete_counts (token_of_names (codes "input_tokens") (codes "prompt_tokens") usage)
      (token_of_names (codes "output_tokens") (codes "completion_tokens") usage)
      (int_token (find (codes "total_tokens") usage))

-- details.update(more)
unfoldable pub update : Fields → Fields → Fields
unfolding store
update details end = details
update details (field k v more) = update (store k v details) more

abbrev pub update_if : Fields → Option Json → Fields
update_if details (some (obj more)) = update details more
update_if details _ = details

abbrev pub default_if : Text → Option ℤ → Fields → Fields
default_if name none details = details
default_if name (some n) details = set_default name (int n) details

unfoldable pub input_details : Fields → Fields
unfolding find update store
input_details usage =
    let listed =
      update_if (update_if end (find (codes "input_tokens_details") usage))
        (find (codes "prompt_tokens_details") usage) in
    let cache_read = int_token (find (codes "cache_read_input_tokens") usage) in
    let with_read =
      default_if (codes "cache_read_input_tokens") cache_read
        (default_if (codes "cached_tokens") cache_read listed) in
    default_if (codes "cache_creation_input_tokens")
      (int_token (find (codes "cache_creation_input_tokens") usage)) with_read

unfoldable pub output_details : Fields → Fields
unfolding find update
output_details usage =
    update_if (update_if end (find (codes "output_tokens_details") usage))
      (find (codes "completion_tokens_details") usage)

-- if details: normalized[name] = details
abbrev pub field_if : Text → Fields → Fields → Fields
field_if name end rest = rest
field_if name (field k v d) rest = field name (obj (field k v d)) rest

unfoldable pub normalize_responses_usage : Fields → Fields
unfolding usage_counts input_details output_details
normalize_responses_usage usage =
    let c = usage_counts usage in
    field (codes "input_tokens") (int c.input_tokens) (
      field (codes "output_tokens") (int c.output_tokens) (
        field (codes "total_tokens") (int c.total_tokens) (
          field_if (codes "input_tokens_details") (input_details usage)
            (field_if (codes "output_tokens_details") (output_details usage) end))))

-- int(usage.get(name) or 0), of a usage that is normalized
abbrev pub count_of : Option Json → Json
count_of (some (int n)) = int n
count_of _ = int (pos 0)

-- details.get(name), if it is an int
abbrev pub copy_count : Text → Option Json → Fields → Fields
copy_count name (some (int n)) rest = field name (int n) rest
copy_count name _ rest = rest

abbrev pub cache_counts : Option Json → Fields
cache_counts (some (obj details)) =
    let cache_read : Option Json = elim (find (codes "cache_read_input_tokens") details) [
      | some v ↦ some v
      | none ↦ find (codes "cached_tokens") details
    ] in
    copy_count (codes "cache_read_input_tokens") cache_read (
      copy_count (codes "cache_creation_input_tokens")
        (find (codes "cache_creation_input_tokens") details) end)
cache_counts _ = end

unfoldable pub responses_usage_to_anthropic_usage : Fields → Fields
unfolding find
responses_usage_to_anthropic_usage usage =
    field (codes "input_tokens") (count_of (find (codes "input_tokens") usage)) (
      field (codes "output_tokens") (count_of (find (codes "output_tokens") usage))
        (cache_counts (find (codes "input_tokens_details") usage)))
