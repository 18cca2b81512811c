-- ===== src/Prefill/Message.antt =====
-- The assistant message that a continued request ends with.
use codex_shim.Prelude.{
  ◌≡◌, refl, sym, ap, ◌∙◌, ◌⊎◌, inl, inr, true, List, [], ◌∷◌, ◌++◌, Bool-cases,
}
use codex_shim.Json.{Json}
use codex_shim.Prefill.{is_assistant, with_assistant_prefill}

-- A message before the last is passed over.
with_prefill_cons :
    (m : Json) (front : List Json) (prefill q : Json)
    → with_assistant_prefill (m ∷ front ++ prefill ∷ []) q
      ≡ m ∷ with_assistant_prefill (front ++ prefill ∷ []) q
unfolding with_assistant_prefill
with_prefill_cons m [] prefill q = refl
with_prefill_cons m (x ∷ front) prefill q = refl

-- The prefill is the last message; before it stand the messages of the request, less a last one that
-- is the assistant's.
pub with_assistant_prefill-last :
    (messages : List Json) (prefill : Json)
    → (front : List Json) × (with_assistant_prefill messages prefill ≡ front ++ prefill ∷ [])
      × ((messages ≡ front) ⊎ ((m : Json) × (messages ≡ front ++ m ∷ []) × (is_assistant m ≡ true)))
unfolding with_assistant_prefill
with_assistant_prefill-last [] prefill = ([], refl, inl refl)
with_assistant_prefill-last (m ∷ []) prefill = elim (Bool-cases (is_assistant m)) [
  | inl yes_it_is ↦ ([], rw yes_it_is refl, inr (m, refl, yes_it_is))
  | inr other ↦ (m ∷ [], rw other refl, inl refl)
]
with_assistant_prefill-last (m ∷ next ∷ messages) prefill =
    let (front, whole, rest) = with_assistant_prefill-last (next ∷ messages) prefill in
    (
      m ∷ front,
      ap (λ l. m ∷ l) whole,
      elim rest [
        | inl same ↦ inl (ap (λ l. m ∷ l) same)
        | inr (last, same, assistant) ↦ inr (last, ap (λ l. m ∷ l) same, assistant)
      ],
    )

-- A second continuation replaces the prefill of the first, if that is an assistant message: however
-- often a stream is continued, the messages do not grow.
pub with_assistant_prefill-again :
    (messages : List Json) (prefill q : Json)
    → is_assistant prefill ≡ true
    → with_assistant_prefill (with_assistant_prefill messages prefill) q
      ≡ with_assistant_prefill messages q
unfolding with_assistant_prefill
with_assistant_prefill-again [] prefill q e = rw e refl
with_assistant_prefill-again (m ∷ []) prefill q e = elim (Bool-cases (is_assistant m)) [
  | inl assistant ↦ rw (assistant, e) refl
  | inr other ↦ rw (other, e) refl
]
with_assistant_prefill-again (m ∷ next ∷ messages) prefill q e =
    let (front, whole, rest) = with_assistant_prefill-last (next ∷ messages) prefill in
    ap (λ l. with_assistant_prefill (m ∷ l) q) whole
    ∙ with_prefill_cons m front prefill q
    ∙ ap (λ l. m ∷ with_assistant_prefill l q) (sym whole)
    ∙ ap (λ l. m ∷ l) (with_assistant_prefill-again (next ∷ messages) prefill q e)
