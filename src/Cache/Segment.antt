-- ===== src/Cache/Segment.antt =====
-- `sanitize_path_segment`: a session or response id as one path segment. Python's `\w` and the
-- hex digest of SHA-256 are parameters.
pub mod Safety
use codex_shim.Prelude.{
  ℕ, ◌-◌, Bool, true, false, ◌&&◌, ◌||◌, List, [], ◌∷◌, ◌++◌, map, Text, codes, nat_eq, ltb, length,
  take, is_empty, lstrip, rstrip, if◌then◌else◌,
}

pub record Names : Type 0 where
  pub is_word : ℕ → Bool  -- re's \w
  pub digest : Text → Text  -- hashlib.sha256(value.encode()).hexdigest()

abbrev pub max_path_segment_len : ℕ
max_path_segment_len = 200

-- value.replace(old, new) for single characters
abbrev replace_char : ℕ → ℕ → Text → Text
replace_char old new = map (λ c. if nat_eq c old then new else c)

-- value.replace("..", "_")
unfoldable pub replace_dots : Text → Text
replace_dots [] = []
replace_dots (a ∷ []) = a ∷ []
replace_dots (a ∷ b ∷ t) = elim (nat_eq a b'.' && nat_eq b b'.') [
  | true ↦ b'_' ∷ replace_dots t
  | false ↦ a ∷ replace_dots (b ∷ t)
]

-- what `[^\w.\-]+` leaves alone
abbrev pub is_safe : Names → ℕ → Bool
is_safe n c = n.is_word c || nat_eq c b'.' || nat_eq c b'-'

-- `_UNSAFE_SEGMENT.sub("_", value)`; the flag says that the previous character was unsafe
unfoldable pub sub_unsafe : Names → Bool → Text → Text
sub_unsafe n in_run [] = []
sub_unsafe n in_run (c ∷ t) =
    let kept = c ∷ sub_unsafe n false t in
    let rest = sub_unsafe n true t in
    let replaced = if in_run then rest else b'_' ∷ rest in if is_safe n c then kept else replaced

-- the argument of `.strip("._")`
abbrev pub is_dot_or_line : ℕ → Bool
is_dot_or_line c = nat_eq c b'.' || nat_eq c b'_'

-- the two separators, "..", then the runs that the pattern finds
abbrev pub replace_unsafe : Names → Text → Text
replace_unsafe n value =
    sub_unsafe n false (replace_dots (replace_char 92 b'_' (replace_char b'/' b'_' value)))

unfoldable pub clean : Names → Text → Text
unfolding replace_dots sub_unsafe lstrip rstrip
clean n value = rstrip is_dot_or_line (lstrip is_dot_or_line (replace_unsafe n value))

-- cleaned[:_MAX_PATH_SEGMENT_LEN - 17] + "_" + digest[:16]
abbrev shorten : Names → Text → Text → Text
shorten n value cleaned =
    if ltb max_path_segment_len (length cleaned)
    then take (max_path_segment_len - 17) cleaned ++ b'_' ∷ take 16 (n.digest value)
    else cleaned

unfoldable pub sanitize_path_segment : Names → Text → Text
unfolding clean
sanitize_path_segment n value =
    let cleaned = shorten n value (clean n value) in
    if is_empty cleaned then take 32 (n.digest value) else cleaned

unfoldable pub sanitize_response_filename : Names → Text → Text
unfolding sanitize_path_segment
sanitize_response_filename n response_id = sanitize_path_segment n response_id ++ codes ".json"
