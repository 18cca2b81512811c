-- ===== src/HostGuard/Names.antt =====
-- Which host a Host header names, independent of the code.
use codex_shim.Prelude.{
  ℕ, ◌+◌, ◌≡◌, ◌≢◌, refl, sym, ap, ◌∙◌, ◌⊎◌, inl, inr, Bool, false, ◌||◌, Option, none, some, [],
  ◌∷◌, ◌++◌, Text, nat_eq, nat_eq_iff, strip, arith, Bool-cases, Option-cases, on_true, on_false,
}
use mathlib.Core.Path.{subst}
use codex_shim.HostGuard.{before_char, count_colons, or_whole, without_port, host_of, host_only}

unfoldable pub has_char : ℕ → Text → Bool
has_char k [] = false
has_char k (c ∷ t) = nat_eq c k || has_char k t

-- A value names a host: an empty one, one in brackets, one before its only colon, or one without a port,
-- which has no colon or several, as an IPv6 address has.
pub data Names (value host : Text) : Type 0 where
  blank : value ≡ [] → host ≡ [] → Names value host
  bracketed :
      (rest : Text)
      → value ≡ b'[' ∷ host ++ b']' ∷ rest
      → has_char b']' host ≡ false
      → Names value host
  unclosed :
      (rest : Text)
      → value ≡ b'[' ∷ rest
      → has_char b']' rest ≡ false
      → host ≡ value
      → Names value host
  before_port :
      (c : ℕ) (t port : Text)
      → value ≡ c ∷ t
      → c ≢ b'['
      → value ≡ host ++ b':' ∷ port
      → has_char b':' host ≡ false
      → has_char b':' port ≡ false
      → Names value host
  portless :
      (c : ℕ) (t : Text)
      → value ≡ c ∷ t
      → c ≢ b'['
      → has_char b':' value ≡ false
      → host ≡ value
      → Names value host
  colons :
      (c : ℕ) (t a b d : Text)
      → value ≡ c ∷ t
      → c ≢ b'['
      → value ≡ a ++ b':' ∷ (b ++ b':' ∷ d)
      → host ≡ value
      → Names value host

text_inj : {s t : Text} → ◌≡◌ {A = Option Text} (some s) (some t) → s ≡ t
text_inj e = cc

before_char-none : (k : ℕ) (t : Text) → before_char k t ≡ none → has_char k t ≡ false
unfolding before_char has_char
before_char-none k [] e = refl
before_char-none k (c ∷ t) e = elim (Bool-cases (nat_eq c k)) [
  | inl here ↦ let impossible : ◌≡◌ {A = Option Text} (some []) none = rw here at e in cc
  | inr other ↦ elim (Option-cases (before_char k t)) [
    | inl absent ↦ ground (arith, other, before_char-none k t absent)
    | inr (s, there) ↦
        let impossible : ◌≡◌ {A = Option Text} (some (c ∷ s)) none = rw (other, there) at e in cc
  ]
]

before_char-some :
    (k : ℕ) (t s : Text)
    → before_char k t ≡ some s
    → (rest : Text) × (t ≡ s ++ k ∷ rest) × (has_char k s ≡ false)
unfolding before_char has_char
before_char-some k [] s e = cc
before_char-some k (c ∷ t) s e = elim (Bool-cases (nat_eq c k)) [
  | inl here ↦
      let same : [] ≡ s = text_inj (rw here at e) in
      let at : c ≡ k = (nat_eq_iff c k).0 here in
      subst (λ r. (rest : Text) × (c ∷ t ≡ r ++ k ∷ rest) × (has_char k r ≡ false)) same
        (t, ap (λ x. x ∷ t) at, refl)
  | inr other ↦ elim (Option-cases (before_char k t)) [
    | inl absent ↦
        let impossible : ◌≡◌ {A = Option Text} none (some s) = rw (other, absent) at e in cc
    | inr (r, there) ↦
        let same : c ∷ r ≡ s = text_inj (rw (other, there) at e) in
        let (rest, split, free) = before_char-some k t r there in
        subst (λ r. (rest : Text) × (c ∷ t ≡ r ++ k ∷ rest) × (has_char k r ≡ false)) same
          (rest, ap (λ u. c ∷ u) split, ground (arith, other, free))
  ]
]

count-append : (s t : Text) → count_colons (s ++ t) ≡ count_colons s + count_colons t
unfolding count_colons
count-append [] t = omega arith
count-append (c ∷ s) t = ground (arith, count-append s t)

count_free : (t : Text) → has_char b':' t ≡ false → count_colons t ≡ 0
unfolding count_colons has_char
count_free [] e = refl
count_free (c ∷ t) e = ground (arith, e, count_free t)

count_zero : (t : Text) → count_colons t ≡ 0 → has_char b':' t ≡ false
unfolding count_colons has_char
count_zero [] e = refl
count_zero (c ∷ t) e = ground (arith, e, count_zero t)

one_colon :
    (value : Text)
    → count_colons value ≡ 1
    → (host : Text) × (port : Text) × (before_char b':' value ≡ some host)
      × (value ≡ host ++ b':' ∷ port)
      × (has_char b':' host ≡ false)
      × (has_char b':' port ≡ false)
unfolding count_colons
one_colon value one = elim (Option-cases (before_char b':' value)) [
  | inl absent ↦ absurd (omega (arith, one, count_free value (before_char-none b':' value absent)))
  | inr (host, there) ↦
      let (port, split, free) = before_char-some b':' value host there in
      let total : count_colons value ≡ count_colons host + (count_colons port + 1) =
        ap count_colons split ∙ count-append host (b':' ∷ port) ∙ omega arith in
      (
        host,
        port,
        there,
        split,
        free,
        count_zero port (omega (arith, one, total, count_free host free)),
      )
]

many_colons :
    (value : Text)
    → count_colons value ≢ 1
    → (has_char b':' value ≡ false)
      ⊎ ((a : Text) × (b : Text) × (d : Text) × (value ≡ a ++ b':' ∷ (b ++ b':' ∷ d)))
unfolding count_colons
many_colons value not_one = elim (Option-cases (before_char b':' value)) [
  | inl absent ↦ inl (before_char-none b':' value absent)
  | inr (a, there) ↦
      let (later, split, free) = before_char-some b':' value a there in
      let total : count_colons value ≡ count_colons a + (count_colons later + 1) =
        ap count_colons split ∙ count-append a (b':' ∷ later) ∙ omega arith in
      elim (Option-cases (before_char b':' later)) [
        | inl absent ↦ absurd (
            not_one (
              omega (
                arith,
                total,
                count_free a free,
                count_free later (before_char-none b':' later absent),
              )))
        | inr (b, next) ↦
            let (d, split', free') = before_char-some b':' later b next in
            inr (a, b, d, split ∙ ap (λ t. a ++ b':' ∷ t) split')
      ]
]

without_port-Names : (c : ℕ) (t : Text) → c ≢ b'[' → Names (c ∷ t) (without_port (c ∷ t))
unfolding without_port
without_port-Names c t plain =
    let value = c ∷ t in
    elim (Bool-cases (nat_eq (count_colons value) 1)) [
      | inl one ↦
          let (host, port, there, split, free, last) =
            one_colon value ((nat_eq_iff (count_colons value) 1).0 one) in
          on_true (Names value) one _ _ (
            subst (λ o. Names value (or_whole o value)) (sym there)
              (before_port c t port refl plain split free last))
      | inr other ↦
          on_false (Names value) other _ _
            (elim (many_colons value (λ e. absurd (ground (arith, other, e)))) [
              | inl free ↦ portless c t refl plain free refl
              | inr (a, b, d, split) ↦ colons c t a b d refl plain split refl
            ])
    ]

bracket-Names :
    (value : Text) (found : Option Text)
    → before_char b']' value ≡ found
    → Names (b'[' ∷ value) (or_whole found (b'[' ∷ value))
bracket-Names value none e = unclosed value refl (before_char-none b']' value e) refl
bracket-Names value (some host) e =
    let (rest, split, free) = before_char-some b']' value host e in
    bracketed rest (ap (λ t. b'[' ∷ t) split) free

host_of-Names : (value : Text) → Names value (host_of value)
unfolding host_of
host_of-Names [] = blank refl refl
host_of-Names (c ∷ value) = elim (Bool-cases (nat_eq c b'[')) [
  | inl bracket ↦ on_true (Names (c ∷ value)) bracket _ _ (
      subst (λ d. Names (d ∷ value) (or_whole (before_char b']' value) (d ∷ value)))
        (sym ((nat_eq_iff c b'[').0 bracket)) (bracket-Names value (before_char b']' value) refl))
  | inr plain ↦
      on_false (Names (c ∷ value)) plain _ _
        (without_port-Names c value (λ e. absurd (ground (arith, plain, e))))
]

-- `host_only` gives the host that the header names, less the spaces around it.
pub host_only-Names : (host_header : Text) → Names (strip host_header) (host_only host_header)
unfolding host_only
host_only-Names host_header = host_of-Names (strip host_header)
