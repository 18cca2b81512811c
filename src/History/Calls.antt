-- ===== src/History/Calls.antt =====
-- Outputs of tools stand after the calls that they answer.
pub mod Flushes
pub mod Order
pub mod Searches
pub mod Held
pub mod Kinds
pub mod Whole
use codex_shim.Prelude.{
  ◌≡◌, refl, sym, ap, ◌∙◌, Bool, true, false, not, ◌&&◌, ◌||◌, Option, none, some, List, [], ◌∷◌,
  ◌++◌, Text, Text-Eq, codes, text_eq, text_eq_iff, mem, is_empty, arith, Bool-cases, inl, inr,
  if◌then◌else◌, on_true, on_false,
}
use mathlib.Core.Path.{subst}
use codex_shim.Prelude.Dict.{Dict, get, put, pop}
use codex_shim.Json.{Json, str, truthy}
use codex_shim.History.{
  ToolCall, Message, plain, calling, tool_result, search_result, reasoning_only, agent, or_empty,
  id_text, pending_ids,
}

module _ (py_str : Json → Text) where
  -- The ids that are called, after some, by messages in order.
  unfoldable pub ids_after : List Text → List Message → List Text
  ids_after ids [] = ids
  ids_after ids (calling calls ∷ messages) = ids_after (pending_ids py_str calls ++ ids) messages
  ids_after ids (plain role content ∷ messages) = ids_after ids messages
  ids_after ids (tool_result call_id content ∷ messages) = ids_after ids messages
  ids_after ids (search_result call_id content ∷ messages) = ids_after ids messages
  ids_after ids (reasoning_only encrypted summary ∷ messages) = ids_after ids messages
  ids_after ids (agent message ∷ messages) = ids_after ids messages

  abbrev pub is_called : List Text → Json → Bool
  is_called ids call_id = is_empty (id_text py_str call_id) || mem (id_text py_str call_id) ids

  -- Each output that has the id of a call stands after a message of an assistant that makes this call.
  -- The result of a tool search may have one of the ids in `free` instead.
  unfoldable pub AreCalled : List Text → List Text → List Message → Type 0
  AreCalled free ids [] = Unit
  AreCalled free ids (tool_result call_id content ∷ messages) =
      (is_called ids call_id ≡ true) × AreCalled free ids messages
  AreCalled free ids (calling calls ∷ messages) =
      AreCalled free (pending_ids py_str calls ++ ids) messages
  AreCalled free ids (plain role content ∷ messages) = AreCalled free ids messages
  AreCalled free ids (search_result call_id content ∷ messages) =
      ((is_called ids call_id || mem (id_text py_str call_id) free) ≡ true)
      × AreCalled free ids messages
  AreCalled free ids (reasoning_only encrypted summary ∷ messages) = AreCalled free ids messages
  AreCalled free ids (agent message ∷ messages) = AreCalled free ids messages

  pub AreCalled-append :
      (free ids : List Text) (xs ys : List Message)
      → AreCalled free ids xs
      → AreCalled free (ids_after ids xs) ys
      → AreCalled free ids (xs ++ ys)
  unfolding AreCalled ids_after
  AreCalled-append free ids [] ys p q = q
  AreCalled-append free ids (tool_result call_id content ∷ xs) ys (e, p) q =
      (e, AreCalled-append free ids xs ys p q)
  AreCalled-append free ids (calling calls ∷ xs) ys p q =
      AreCalled-append free (pending_ids py_str calls ++ ids) xs ys p q
  AreCalled-append free ids (plain role content ∷ xs) ys p q = AreCalled-append free ids xs ys p q
  AreCalled-append free ids (search_result call_id content ∷ xs) ys (e, p) q =
      (e, AreCalled-append free ids xs ys p q)
  AreCalled-append free ids (reasoning_only encrypted summary ∷ xs) ys p q =
      AreCalled-append free ids xs ys p q
  AreCalled-append free ids (agent message ∷ xs) ys p q = AreCalled-append free ids xs ys p q

  pub ids_after-append :
      (ids : List Text) (xs ys : List Message)
      → ids_after ids (xs ++ ys) ≡ ids_after (ids_after ids xs) ys
  unfolding ids_after
  ids_after-append ids [] ys = refl
  ids_after-append ids (calling calls ∷ xs) ys =
      ids_after-append (pending_ids py_str calls ++ ids) xs ys
  ids_after-append ids (tool_result call_id content ∷ xs) ys = ids_after-append ids xs ys
  ids_after-append ids (plain role content ∷ xs) ys = ids_after-append ids xs ys
  ids_after-append ids (search_result call_id content ∷ xs) ys = ids_after-append ids xs ys
  ids_after-append ids (reasoning_only encrypted summary ∷ xs) ys = ids_after-append ids xs ys
  ids_after-append ids (agent message ∷ xs) ys = ids_after-append ids xs ys

pub mem-right : (k : Text) (xs ys : List Text) → mem k ys ≡ true → mem k (xs ++ ys) ≡ true
unfolding mem
mem-right k [] ys e = e
mem-right k (x ∷ xs) ys e = ground (arith, mem-right k xs ys e)

pub mem-left : (k : Text) (xs ys : List Text) → mem k xs ≡ true → mem k (xs ++ ys) ≡ true
unfolding mem
mem-left k [] ys e = cc
mem-left k (x ∷ xs) ys e = ground (arith, e, mem-left k xs ys)

module _ (py_str : Json → Text) where
  -- A call is not forgotten.
  pub ids_after-kept :
      (k : Text) (ids : List Text) (xs : List Message)
      → mem k ids ≡ true
      → mem k (ids_after py_str ids xs) ≡ true
  unfolding ids_after
  ids_after-kept k ids [] e = e
  ids_after-kept k ids (calling calls ∷ xs) e =
      ids_after-kept k (pending_ids py_str calls ++ ids) xs
        (mem-right k (pending_ids py_str calls) ids e)
  ids_after-kept k ids (tool_result call_id content ∷ xs) e = ids_after-kept k ids xs e
  ids_after-kept k ids (plain role content ∷ xs) e = ids_after-kept k ids xs e
  ids_after-kept k ids (search_result call_id content ∷ xs) e = ids_after-kept k ids xs e
  ids_after-kept k ids (reasoning_only encrypted summary ∷ xs) e = ids_after-kept k ids xs e
  ids_after-kept k ids (agent message ∷ xs) e = ids_after-kept k ids xs e

  -- Messages that answer one call: its outputs, and what they show.
  abbrev pub AreFor : Text → List Message → Type 0
  AreFor k [] = Unit
  AreFor k (tool_result call_id content ∷ messages) =
      (id_text py_str call_id ≡ k) × AreFor k messages
  AreFor k (plain role content ∷ messages) = AreFor k messages
  AreFor k (message ∷ messages) = ⊥

  pub AreFor-append :
      (k : Text) (xs ys : List Message) → AreFor k xs → AreFor k ys → AreFor k (xs ++ ys)
  AreFor-append k [] ys p q = q
  AreFor-append k (tool_result call_id content ∷ xs) ys (e, p) q = (e, AreFor-append k xs ys p q)
  AreFor-append k (plain role content ∷ xs) ys p q = AreFor-append k xs ys p q
  AreFor-append k (calling calls ∷ xs) ys p q = absurd p
  AreFor-append k (search_result call_id content ∷ xs) ys p q = absurd p
  AreFor-append k (reasoning_only encrypted summary ∷ xs) ys p q = absurd p
  AreFor-append k (agent message ∷ xs) ys p q = absurd p

  pub AreFor-AreCalled :
      (free : List Text) (k : Text) (ids : List Text) (xs : List Message)
      → mem k ids ≡ true
      → AreFor k xs
      → AreCalled py_str free ids xs
  unfolding AreCalled
  AreFor-AreCalled free k ids [] m p = tt
  AreFor-AreCalled free k ids (tool_result call_id content ∷ xs) m (e, p) = (
    subst (λ j. (is_empty j || mem j ids) ≡ true) (sym e) (ground (arith, m)),
    AreFor-AreCalled free k ids xs m p,
  )
  AreFor-AreCalled free k ids (plain role content ∷ xs) m p = AreFor-AreCalled free k ids xs m p
  AreFor-AreCalled free k ids (calling calls ∷ xs) m p = absurd p
  AreFor-AreCalled free k ids (search_result call_id content ∷ xs) m p = absurd p
  AreFor-AreCalled free k ids (reasoning_only encrypted summary ∷ xs) m p = absurd p
  AreFor-AreCalled free k ids (agent message ∷ xs) m p = absurd p

  -- What is put off answers the call under which it is kept.
  abbrev pub AllFor : Dict Text (List Message) → Type 0
  AllFor [] = Unit
  AllFor ((k, messages) ∷ d) = AreFor k messages × AllFor d

  pub get-AllFor :
      (k : Text) (d : Dict Text (List Message)) → AllFor d → AreFor k (or_empty (get k d))
  unfolding get
  get-AllFor k [] p = tt
  get-AllFor k ((j, messages) ∷ d) (p, q) = elim (Bool-cases (text_eq j k)) [
    | inl same ↦
        on_true (λ o. AreFor k (or_empty o)) same _ _
          (subst (λ i. AreFor i messages) ((text_eq_iff j k).0 same) p)
    | inr other ↦ on_false (λ o. AreFor k (or_empty o)) other _ _ (get-AllFor k d q)
  ]

  pub pop-AllFor : (k : Text) (d : Dict Text (List Message)) → AllFor d → AllFor (pop k d)
  unfolding pop
  pop-AllFor k [] p = tt
  pop-AllFor k ((j, messages) ∷ d) (p, q) = elim (Bool-cases (text_eq j k)) [
    | inl same ↦ on_true AllFor same _ _ (pop-AllFor k d q)
    | inr other ↦ on_false AllFor other _ _ (p, pop-AllFor k d q)
  ]

  pub put-AllFor :
      (k : Text) (messages : List Message) (d : Dict Text (List Message))
      → AreFor k messages
      → AllFor d
      → AllFor (put k messages d)
  unfolding put
  put-AllFor k messages [] p q = (p, tt)
  put-AllFor k messages ((j, others) ∷ d) p (q, r) = elim (Bool-cases (text_eq j k)) [
    | inl same ↦ on_true AllFor same _ _ (p, r)
    | inr other ↦ on_false AllFor other _ _ (q, put-AllFor k messages d p r)
  ]
