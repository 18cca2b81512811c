-- ===== src/Tests/SseRuns.antt =====
-- An event stream whose second chunk begins inside a line.
use codex_shim.Prelude.{◌≡◌, refl, List, [], ◌∷◌, codes, Text, strip, after_prefix}
use codex_shim.Sse.{
  Bytes, sse_lines, read_chunks, split_lines, data_lines, data_of, is_unterminated,
}
use codex_shim.Sse.Chunks.{whole_lines, joined, sse_lines-whole}

abbrev ascii : Bytes → Text
ascii bytes = bytes

abbrev chunks : List Bytes
chunks = codes "data: one\nda" ∷ codes "ta: two\n\n: ping\ndata: [DONE]" ∷ []

sse_lines-whole_example : (sse_lines ascii chunks).lines ≡ whole_lines ascii (joined chunks)
unfolding sse_lines read_chunks split_lines data_lines data_of is_unterminated strip after_prefix
sse_lines-whole_example = sse_lines-whole ascii chunks (refl, (refl, tt)) refl

three_lines : (sse_lines ascii chunks).lines ≡ codes "one" ∷ codes "two" ∷ codes "[DONE]" ∷ []
unfolding sse_lines read_chunks split_lines data_lines data_of is_unterminated strip after_prefix
three_lines = refl
