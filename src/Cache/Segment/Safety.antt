-- ===== src/Cache/Segment/Safety.antt =====
-- What `sanitize_path_segment` promises of its result.
use codex_shim.Prelude.{
  ℕ, ◌≤◌, ◌<◌, ◌≡◌, refl, ◌≢◌, Bool, true, false, ◌&&◌, ◌||◌, [], ◌∷◌, ◌++◌, Text, arith, nat_eq,
  leb, ltb, length, length-append, length-take-le, take, All, All-append, All-take, is_empty,
  lstrip, rstrip, Bool-cases, inl, inr, if◌then◌else◌,
}
use codex_shim.Cache.Segment.{
  Names, is_dot_or_line, replace_char, replace_dots, is_safe, sub_unsafe, replace_unsafe, clean,
  sanitize_path_segment,
}

-- A hexadecimal digest of 256 bits, as documented.
abbrev pub is_hex : ℕ → Bool
is_hex c = leb b'0' c && leb c b'9' || leb b'a' c && leb c b'f'

pub record IsHexDigest (t : Text) : Type 0 where
  pub size : length t ≡ 64
  pub digits : All (λ c. is_hex c ≡ true) t

-- What is documented of `\w` and of `hexdigest`.
pub record NamesLaws (n : Names) : Type 0 where
  pub slash : n.is_word b'/' ≡ false
  pub backslash : n.is_word 92 ≡ false
  pub hex : (value : Text) → IsHexDigest (n.digest value)

abbrev pub NoSeparator : ℕ → Type 0
NoSeparator c = (c ≢ b'/') × (c ≢ 92)

abbrev pub HeadIsNot : (ℕ → Bool) → Text → Type 0
HeadIsNot p [] = Unit
HeadIsNot p (c ∷ t) = p c ≡ false

-- One path component that stays below its directory: it is not empty, `.` or `..`, and has no
-- separator.
pub record IsSegment (t : Text) : Type 0 where
  pub nonempty : 0 < length t
  pub no_dot : HeadIsNot (λ c. nat_eq c b'.') t
  pub no_separator : All NoSeparator t
  pub short : length t ≤ 200

and_false : (b : Bool) → (b && false) ≡ false
and_false true = refl
and_false false = refl

-- What replaces a run of unsafe characters.
replaced_run :
    (b : Bool) (rest : Text)
    → All NoSeparator rest
    → All NoSeparator (if b then rest else b'_' ∷ rest)
replaced_run true rest h = h
replaced_run false rest h = ((omega arith, omega arith), h)

module _ (n : Names) (laws : NamesLaws n) where
  safe-NoSeparator : (c : ℕ) → is_safe n c ≡ true → NoSeparator c
  safe-NoSeparator c h = (
    λ e. let s : is_safe n b'/' ≡ true = rw e at h in ground (arith, laws.slash),
    λ e. let s : is_safe n 92 ≡ true = rw e at h in ground (arith, laws.backslash),
  )

  sub_unsafe-NoSeparator : (b : Bool) (t : Text) → All NoSeparator (sub_unsafe n b t)
  unfolding sub_unsafe
  sub_unsafe-NoSeparator b [] = tt
  sub_unsafe-NoSeparator b (c ∷ t) = elim (Bool-cases (is_safe n c)) [
    | inl s ↦ rw s (safe-NoSeparator c s, sub_unsafe-NoSeparator false t)
    | inr u ↦ rw u (replaced_run b (sub_unsafe n true t) (sub_unsafe-NoSeparator true t))
  ]

module _ (p : ℕ → Bool) where
  lstrip-All {κ} : (P : ℕ → Type κ) (t : Text) → All P t → All P (lstrip p t)
  unfolding lstrip
  lstrip-All P [] h = tt
  lstrip-All P (c ∷ t) h = elim (Bool-cases (p c)) [
    | inl s ↦ rw s (lstrip-All P t h.1)
    | inr k ↦ rw k h
  ]

  rstrip-All {κ} : (P : ℕ → Type κ) (t : Text) → All P t → All P (rstrip p t)
  unfolding rstrip
  rstrip-All P [] h = tt
  rstrip-All P (c ∷ t) h = elim (Bool-cases (is_empty (rstrip p t) && p c)) [
    | inl s ↦ rw s tt
    | inr k ↦ rw k (h.0, rstrip-All P t h.1)
  ]

  lstrip-HeadIsNot : (t : Text) → HeadIsNot p (lstrip p t)
  unfolding lstrip
  lstrip-HeadIsNot [] = tt
  lstrip-HeadIsNot (c ∷ t) = elim (Bool-cases (p c)) [
    | inl s ↦ rw s (lstrip-HeadIsNot t)
    | inr k ↦ rw k k
  ]

  rstrip-HeadIsNot : (t : Text) → HeadIsNot p t → HeadIsNot p (rstrip p t)
  unfolding rstrip
  rstrip-HeadIsNot [] h = tt
  rstrip-HeadIsNot (c ∷ t) h = rw (h, and_false (is_empty (rstrip p t))) h

no_dot_of_strip : (t : Text) → HeadIsNot is_dot_or_line t → HeadIsNot (λ c. nat_eq c b'.') t
no_dot_of_strip [] h = tt
no_dot_of_strip (c ∷ t) h = ground arith

module _ (n : Names) (laws : NamesLaws n) where
  hex-NoSeparator : (t : Text) → All (λ c. is_hex c ≡ true) t → All NoSeparator t
  hex-NoSeparator [] h = tt
  hex-NoSeparator (c ∷ t) h = ((ground arith, ground arith), hex-NoSeparator t h.1)

  hex_no_dot : (t : Text) → All (λ c. is_hex c ≡ true) t → HeadIsNot (λ c. nat_eq c b'.') t
  hex_no_dot [] h = tt
  hex_no_dot (c ∷ t) h = ground arith

  digest-NoSeparator : (value : Text) → All NoSeparator (n.digest value)
  digest-NoSeparator value = hex-NoSeparator (n.digest value) (laws.hex value).digits

  clean-NoSeparator : (value : Text) → All NoSeparator (clean n value)
  unfolding clean
  clean-NoSeparator value =
      let t = replace_unsafe n value in
      rstrip-All is_dot_or_line NoSeparator (lstrip is_dot_or_line t) (
        lstrip-All is_dot_or_line NoSeparator t (
          sub_unsafe-NoSeparator n laws false
            (replace_dots (replace_char 92 b'_' (replace_char b'/' b'_' value)))))

  clean_no_dot : (value : Text) → HeadIsNot (λ c. nat_eq c b'.') (clean n value)
  unfolding clean
  clean_no_dot value =
      let t = replace_unsafe n value in
      no_dot_of_strip (clean n value) (
        rstrip-HeadIsNot is_dot_or_line (lstrip is_dot_or_line t)
          (lstrip-HeadIsNot is_dot_or_line t))

  -- The prefix of a long name keeps its first character.
  long_no_dot :
      (t rest : Text)
      → 200 < length t
      → HeadIsNot (λ c. nat_eq c b'.') t
      → HeadIsNot (λ c. nat_eq c b'.') (take 183 t ++ rest)
  long_no_dot [] rest big h = absurd (omega arith)
  long_no_dot (c ∷ t) rest big h = h

  shortened :
      (value t : Text)
      → 200 < length t
      → All NoSeparator t
      → HeadIsNot (λ c. nat_eq c b'.') t
      → IsSegment (take 183 t ++ b'_' ∷ take 16 (n.digest value))
  shortened value t big plain head = record {
    nonempty = omega (arith, length-append (take 183 t) (b'_' ∷ take 16 (n.digest value)));
    no_dot = long_no_dot t _ big head;
    no_separator =
        All-append NoSeparator (take 183 t) _ (All-take NoSeparator 183 t plain)
          ((omega arith, omega arith), All-take NoSeparator 16 _ (digest-NoSeparator value));
    short = omega (
      arith,
      length-append (take 183 t) (b'_' ∷ take 16 (n.digest value)),
      length-take-le 183 t,
      length-take-le 16 (n.digest value),
    );
  }

  digest-IsSegment : (t : Text) → IsHexDigest t → IsSegment (take 32 t)
  digest-IsSegment [] h = absurd (omega (arith, h.size))
  digest-IsSegment (c ∷ t) h = record {
    nonempty = omega arith;
    no_dot = hex_no_dot (c ∷ t) h.digits;
    no_separator = All-take NoSeparator 32 (c ∷ t) (hex-NoSeparator (c ∷ t) h.digits);
    short = omega (arith, length-take-le 32 (c ∷ t));
  }

  kept :
      (t : Text)
      → is_empty t ≡ false
      → ltb 200 (length t) ≡ false
      → All NoSeparator t
      → HeadIsNot (λ c. nat_eq c b'.') t
      → IsSegment t
  kept [] e s plain head = cc
  kept (c ∷ t) e s plain head = record {
    nonempty = omega arith;
    no_dot = head;
    no_separator = plain;
    short = ground arith;
  }

  nonempty_of_append : (s t : Text) (c : ℕ) → is_empty (s ++ c ∷ t) ≡ false
  nonempty_of_append [] t c = refl
  nonempty_of_append (a ∷ s) t c = refl

  -- Every id becomes one path component below its directory: it is not empty, does not begin with
  -- a dot, holds no slash or backslash, and has at most 200 characters. It is assumed that neither
  -- separator is a word character, and that the digest has 64 hexadecimal digits.
  pub sanitize_path_segment-IsSegment : (value : Text) → IsSegment (sanitize_path_segment n value)
  unfolding sanitize_path_segment
  sanitize_path_segment-IsSegment value = elim (Bool-cases (ltb 200 (length (clean n value)))) [
    | inl long ↦
        rw (long, nonempty_of_append (take 183 (clean n value)) (take 16 (n.digest value)) b'_')
          (shortened value (clean n value) (ground arith) (clean-NoSeparator value)
            (clean_no_dot value))
    | inr fits ↦ elim (Bool-cases (is_empty (clean n value))) [
      | inl blank ↦ rw (fits, blank) (digest-IsSegment (n.digest value) (laws.hex value))
      | inr some_text ↦
          rw (fits, some_text)
            (kept (clean n value) some_text fits (clean-NoSeparator value) (clean_no_dot value))
    ]
  ]
