-- ===== src/Sse/Chunks.antt =====
-- The lines do not depend on how the stream is cut.
use codex_shim.Prelude.{
  ℕ, ◌≡◌, refl, sym, ap, ◌∙◌, Bool, true, false, List, [], ◌∷◌, ◌++◌, append-nil, append_assoc,
  Text, nat_eq, Bool-cases, inl, inr, All, is_empty, if◌then◌else◌,
}
use codex_shim.Sse.{
  Bytes, line_start, line_end, split_lines, data_of, data_lines, Yielded, yield_before,
  is_unterminated, read_chunks, sse_lines,
}

abbrev pub joined : List Bytes → Bytes
joined [] = []
joined (c ∷ cs) = c ++ joined cs

-- The reference: the lines of the whole stream, then its tail.
unfoldable pub whole_lines : (Bytes → Text) → Bytes → List Text
unfolding split_lines data_lines
whole_lines decode stream =
    let (lines, rest) = split_lines stream in data_lines decode lines ++ data_of decode rest

abbrev lines_then : List Bytes → List Bytes × Bytes → List Bytes × Bytes
lines_then done (lines, rest) = (done ++ lines, rest)

lines_then-start :
    (c : ℕ) (done : List Bytes) (rest b : Bytes)
    → nat_eq c 10 ≡ false
    → line_start c (lines_then done (split_lines (rest ++ b)))
      ≡ lines_then (line_start c (done, rest)).0 (split_lines ((line_start c (done, rest)).1 ++ b))
unfolding split_lines
lines_then-start c [] rest b other = rw other refl
lines_then-start c (line ∷ done) rest b other = refl

split_lines-append :
    (a b : Bytes)
    → split_lines (a ++ b) ≡ lines_then (split_lines a).0 (split_lines ((split_lines a).1 ++ b))
unfolding split_lines
split_lines-append [] b = refl
split_lines-append (c ∷ a) b = elim (Bool-cases (nat_eq c 10)) [
  | inl newline ↦ rw newline (ap line_end (split_lines-append a b))
  | inr other ↦ rw other (
      ap (line_start c) (split_lines-append a b)
      ∙ lines_then-start c (split_lines a).0 (split_lines a).1 b other)
]

data_lines-append :
    (decode : Bytes → Text) (a b : List Bytes)
    → data_lines decode (a ++ b) ≡ data_lines decode a ++ data_lines decode b
unfolding data_lines
data_lines-append decode [] b = refl
data_lines-append decode (line ∷ a) b =
    ap (λ t. data_of decode line ++ t) (data_lines-append decode a b)
    ∙ sym (append_assoc (data_of decode line) (data_lines decode a) (data_lines decode b))

-- The lines of a stream are those of a first part, and then those of what that part left and the rest.
whole_lines-append :
    (decode : Bytes → Text) (a b : Bytes)
    → whole_lines decode (a ++ b)
      ≡ data_lines decode (split_lines a).0 ++ whole_lines decode ((split_lines a).1 ++ b)
unfolding whole_lines
whole_lines-append decode a b =
    let (done, rest) = split_lines a in
    let (lines, tail) = split_lines (rest ++ b) in
    ap (λ (p : List Bytes × Bytes). data_lines decode p.0 ++ data_of decode p.1)
      (split_lines-append a b)
    ∙ ap (λ t. t ++ data_of decode tail) (data_lines-append decode done lines)
    ∙ append_assoc (data_lines decode done) (data_lines decode lines) (data_of decode tail)

-- What is left has no newline.
line_start-rest :
    (c : ℕ) (done : List Bytes) (rest : Bytes)
    → nat_eq c 10 ≡ false
    → split_lines rest ≡ ([], rest)
    → split_lines (line_start c (done, rest)).1 ≡ ([], (line_start c (done, rest)).1)
unfolding split_lines
line_start-rest c [] rest other clean = rw other (ap (line_start c) clean)
line_start-rest c (line ∷ done) rest other clean = clean

split_lines-rest : (a : Bytes) → split_lines (split_lines a).1 ≡ ([], (split_lines a).1)
unfolding split_lines
split_lines-rest [] = refl
split_lines-rest (c ∷ a) = elim (Bool-cases (nat_eq c 10)) [
  | inl newline ↦ rw newline (split_lines-rest a)
  | inr other ↦
      rw other (line_start-rest c (split_lines a).0 (split_lines a).1 other (split_lines-rest a))
]

read_chunks_step :
    (decode : Bytes → Text) (buffer : Bytes) (c : ℕ) (chunk : Bytes) (chunks : List Bytes)
    (long : Bool)
    → is_unterminated (buffer ++ c ∷ chunk) ≡ long
    → read_chunks decode buffer ((c ∷ chunk) ∷ chunks) ≡ (
        if long
        then record { lines = []; overflow = true }
        else yield_before
            (data_lines decode (split_lines (buffer ++ c ∷ chunk)).0)
            (read_chunks decode (split_lines (buffer ++ c ∷ chunk)).1 chunks))
unfolding read_chunks
read_chunks_step decode buffer c chunk chunks long e = rw e refl

read_chunks-whole :
    (decode : Bytes → Text) (buffer : Bytes) (chunks : List Bytes)
    → All (λ c. is_empty c ≡ false) chunks
    → split_lines buffer ≡ ([], buffer)
    → (read_chunks decode buffer chunks).overflow ≡ false
    → (read_chunks decode buffer chunks).lines ≡ whole_lines decode (buffer ++ joined chunks)
read_chunks-whole decode buffer [] full clean ok =
    let tail : (read_chunks decode buffer []).lines ≡ data_of decode buffer =
      unfold read_chunks in refl in
    let whole : whole_lines decode buffer ≡ data_of decode buffer =
      unfold whole_lines data_lines in rw clean refl in
    tail ∙ sym whole ∙ ap (whole_lines decode) (sym (append-nil buffer))
read_chunks-whole decode buffer ([] ∷ chunks) (full, more) clean ok = cc
read_chunks-whole decode buffer ((c ∷ chunk) ∷ chunks) (full, more) clean ok =
    elim (Bool-cases (is_unterminated (buffer ++ c ∷ chunk))) [
      | inl long ↦
          let raised : true ≡ false =
            ap (λ (y : Yielded). y.overflow)
              (sym (read_chunks_step decode buffer c chunk chunks true long))
            ∙ ok in
          cc
      | inr short ↦
          let step = read_chunks_step decode buffer c chunk chunks false short in
          let (lines, rest) = split_lines (buffer ++ c ∷ chunk) in
          let fine : (read_chunks decode rest chunks).overflow ≡ false =
            ap (λ (y : Yielded). y.overflow) (sym step) ∙ ok in
          let later =
            read_chunks-whole decode rest chunks more (split_lines-rest (buffer ++ c ∷ chunk))
              fine in
          ap (λ (y : Yielded). y.lines) step
          ∙ ap (λ t. data_lines decode lines ++ t) later
          ∙ sym (whole_lines-append decode (buffer ++ c ∷ chunk) (joined chunks))
          ∙ ap (whole_lines decode) (append_assoc buffer (c ∷ chunk) (joined chunks))
    ]

-- If no chunk is empty and no line is too long, the data lines are those of the whole stream, cut at
-- its newlines, however the stream came in chunks.
pub sse_lines-whole :
    (decode : Bytes → Text) (chunks : List Bytes)
    → All (λ c. is_empty c ≡ false) chunks
    → (sse_lines decode chunks).overflow ≡ false
    → (sse_lines decode chunks).lines ≡ whole_lines decode (joined chunks)
unfolding sse_lines
sse_lines-whole decode chunks full ok =
    read_chunks-whole decode [] chunks full (unfold split_lines in refl) ok
