-- ===== src/Sse.antt =====
-- `sse_lines` of codex_shim/net/sse.py: the data lines of a byte stream. UTF-8 decoding is a parameter.
pub mod Chunks
use codex_shim.Prelude.{
  ℕ, Bool, true, false, not, ◌&&◌, Option, none, some, List, [], ◌∷◌, ◌++◌, Text, codes, nat_eq,
  ltb, length, is_empty, any_of, strip, after_prefix, if◌then◌else◌,
}

abbrev pub Bytes : Type 0
Bytes = List ℕ

abbrev pub max_unterminated_sse_line : ℕ
max_unterminated_sse_line = 1048576

-- `raw, buffer = buffer.split(b"\n", 1)` until no newline is left: the lines, and what is left
abbrev pub line_start : ℕ → List Bytes × Bytes → List Bytes × Bytes
line_start c ([], rest) = ([], c ∷ rest)
line_start c (line ∷ lines, rest) = ((c ∷ line) ∷ lines, rest)

abbrev pub line_end : List Bytes × Bytes → List Bytes × Bytes
line_end (lines, rest) = ([] ∷ lines, rest)

unfoldable pub split_lines : Bytes → List Bytes × Bytes
split_lines [] = ([], [])
split_lines (c ∷ buffer) =
    let later = split_lines buffer in if nat_eq c 10 then line_end later else line_start c later

-- line[5:].strip(), for a line that begins with "data:"
unfoldable pub data_of : (Bytes → Text) → Bytes → List Text
unfolding strip after_prefix
data_of decode raw = elim (after_prefix (codes "data:") (strip (decode raw))) [
  | none ↦ []
  | some payload ↦ strip payload ∷ []
]

unfoldable pub data_lines : (Bytes → Text) → List Bytes → List Text
unfolding data_of
data_lines decode [] = []
data_lines decode (line ∷ lines) = data_of decode line ++ data_lines decode lines

-- What the generator yields, and whether it raises `ValueError` at the end.
pub record Yielded : Type 0 where
  pub lines : List Text
  pub overflow : Bool

abbrev pub yield_before : List Text → Yielded → Yielded
yield_before ts y = record { lines = ts ++ y.lines; overflow = y.overflow }

-- len(buffer) > MAX_UNTERMINATED_SSE_LINE and b"\n" not in buffer
unfoldable pub is_unterminated : Bytes → Bool
is_unterminated buffer =
    ltb max_unterminated_sse_line (length buffer) && not (any_of (λ c. nat_eq c 10) buffer)

-- An empty chunk is the end of the stream.
unfoldable pub read_chunks : (Bytes → Text) → Bytes → List Bytes → Yielded
unfolding split_lines data_lines is_unterminated
read_chunks decode buffer [] = record { lines = data_of decode buffer; overflow = false }
read_chunks decode buffer ([] ∷ chunks) = record { lines = data_of decode buffer; overflow = false }
read_chunks decode buffer ((c ∷ chunk) ∷ chunks) =
    let filled = buffer ++ c ∷ chunk in
    let (lines, rest) = split_lines filled in
    let later = read_chunks decode rest chunks in
    if is_unterminated filled
    then record { lines = []; overflow = true }
    else yield_before (data_lines decode lines) later

unfoldable pub sse_lines : (Bytes → Text) → List Bytes → Yielded
unfolding read_chunks
sse_lines decode chunks = read_chunks decode [] chunks
