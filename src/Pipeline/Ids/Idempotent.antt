-- ===== src/Pipeline/Ids/Idempotent.antt =====
-- A canonical call id is its own canonical id.
use codex_shim.Prelude.{
  ℕ, ◌≡◌, refl, ap, Bool, false, ◌&&◌, none, some, [], ◌∷◌, ◌++◌, Text, codes, lstrip, rstrip,
  strip, is_space, is_empty, after_prefix, or_text, nat_eq, Bool-cases, inl, inr, Option-cases,
  if◌then◌else◌,
}
use codex_shim.Pipeline.Ids.{suffix_of, token_of, responses_function_call_ids}

module _ (p : ℕ → Bool) where
  -- Not empty, and the last character passes no test of `p`.
  abbrev EndsWell : Text → Type 0
  EndsWell [] = ⊥
  EndsWell (c ∷ []) = p c ≡ false
  EndsWell (c ∷ d ∷ t) = EndsWell (d ∷ t)

  abbrev IsTrimmed : Text → Type 0
  IsTrimmed [] = Unit
  IsTrimmed (c ∷ t) = EndsWell (c ∷ t)

  rstrip_step :
      (c : ℕ) (r : Text) → IsTrimmed r → IsTrimmed (if is_empty r && p c then [] else c ∷ r)
  rstrip_step c [] h = elim (Bool-cases (p c)) [ inl yes_p ↦ rw yes_p tt | inr no_p ↦ rw no_p no_p ]
  rstrip_step c (d ∷ r) h = h

  rstrip-IsTrimmed : (t : Text) → IsTrimmed (rstrip p t)
  unfolding rstrip
  rstrip-IsTrimmed [] = tt
  rstrip-IsTrimmed (c ∷ t) = rstrip_step c (rstrip p t) (rstrip-IsTrimmed t)

  IsTrimmed-tail : (c : ℕ) (t : Text) → IsTrimmed (c ∷ t) → IsTrimmed t
  IsTrimmed-tail c [] h = tt
  IsTrimmed-tail c (d ∷ t) h = h

  after_prefix-IsTrimmed :
      (ps t rest : Text) → after_prefix ps t ≡ some rest → IsTrimmed t → IsTrimmed rest
  unfolding after_prefix
  after_prefix-IsTrimmed [] t rest e h = let same : t ≡ rest = cc in rw same at h
  after_prefix-IsTrimmed (q ∷ ps) [] rest e h = cc
  after_prefix-IsTrimmed (q ∷ ps) (c ∷ t) rest e h = elim (Bool-cases (nat_eq q c)) [
    | inl same ↦ after_prefix-IsTrimmed ps t rest (rw same at e) (IsTrimmed-tail c t h)
    | inr other ↦ let off : none ≡ some rest = rw other at e in cc
  ]

  rstrip-EndsWell : (t : Text) → EndsWell t → rstrip p t ≡ t
  unfolding rstrip
  rstrip-EndsWell (c ∷ []) h = rw h refl
  rstrip-EndsWell (c ∷ d ∷ t) h =
      ap (λ r. if is_empty r && p c then [] else c ∷ r) (rstrip-EndsWell (d ∷ t) h)
  rstrip-EndsWell [] h = absurd h

  EndsWell-cons : (c : ℕ) (t : Text) → EndsWell t → EndsWell (c ∷ t)
  EndsWell-cons c [] h = absurd h
  EndsWell-cons c (d ∷ t) h = h

  EndsWell-append : (s t : Text) → EndsWell t → EndsWell (s ++ t)
  EndsWell-append [] t h = h
  EndsWell-append (c ∷ s) t h = EndsWell-cons c (s ++ t) (EndsWell-append s t h)

  or_text-EndsWell : (t : Text) → p b'0' ≡ false → IsTrimmed t → EndsWell (or_text t (codes "0"))
  or_text-EndsWell [] z h = z
  or_text-EndsWell (c ∷ t) z h = h

  EndsWell→IsTrimmed : (t : Text) → EndsWell t → IsTrimmed t
  EndsWell→IsTrimmed [] h = absurd h
  EndsWell→IsTrimmed (c ∷ t) h = h

  -- The suffix of a trimmed token is trimmed.
  suffix_of-EndsWell : (t : Text) → p b'0' ≡ false → EndsWell t → EndsWell (suffix_of t)
  unfolding suffix_of
  suffix_of-EndsWell t z h = elim (Option-cases (after_prefix (codes "call_") t)) [
    | inr (rest, call) ↦
        rw (call, suffix_of)
          (or_text-EndsWell rest z (after_prefix-IsTrimmed _ t rest call (EndsWell→IsTrimmed t h)))
    | inl no_call ↦ elim (Option-cases (after_prefix (codes "fc_") t)) [
      | inl no_fc ↦ rw (no_call, suffix_of, no_fc) h
      | inr (rest, fc) ↦
          let s = or_text rest (codes "0") in
          let sh : EndsWell s =
            or_text-EndsWell rest z (after_prefix-IsTrimmed _ t rest fc (EndsWell→IsTrimmed t h)) in
          elim (Option-cases (after_prefix (codes "call_") s)) [
            | inl plain ↦ rw (no_call, suffix_of, fc, plain) sh
            | inr (inner, nested) ↦
                rw (no_call, suffix_of, fc, nested)
                  (or_text-EndsWell inner z
                    (after_prefix-IsTrimmed _ s inner nested (EndsWell→IsTrimmed s sh)))
          ]
    ]
  ]

or_text_of-EndsWell : (t : Text) → EndsWell is_space t → or_text t (codes "0") ≡ t
or_text_of-EndsWell [] h = absurd h
or_text_of-EndsWell (c ∷ t) h = refl

-- A canonical id is a token, and its suffix is what it was made from.
canonical_again : (s : Text) → EndsWell is_space s → suffix_of (token_of (codes "call_" ++ s)) ≡ s
unfolding token_of suffix_of lstrip after_prefix
canonical_again s h =
    let whole : EndsWell is_space (codes "call_" ++ s) =
      EndsWell-append is_space (codes "call_") s h in
    rw (rstrip-EndsWell is_space (codes "call_" ++ s) whole) (or_text_of-EndsWell s h)

-- The ids of a canonical call id are the ids that it came from: canonical ids are fixed points.
pub responses_function_call_ids-idempotent :
    (raw : Text)
    → responses_function_call_ids (responses_function_call_ids raw).1
      ≡ responses_function_call_ids raw
unfolding responses_function_call_ids
responses_function_call_ids-idempotent raw =
    let s = suffix_of (token_of raw) in
    ap (λ (t : Text). (codes "fc_" ++ t, codes "call_" ++ t))
      (canonical_again s (
        suffix_of-EndsWell is_space (token_of raw) refl (
          or_text-EndsWell is_space (strip raw) refl
            (unfold strip in rstrip-IsTrimmed is_space (lstrip is_space raw)))))
