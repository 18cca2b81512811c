-- ===== src/History/Calls/Flushes.antt =====
-- What the steps on the pending calls and on the outputs that are put off keep.
use codex_shim.Prelude.{
  ◌≡◌, refl, sym, true, false, List, [], ◌∷◌, Text, Text-Eq, text_eq, text_eq_iff, mem, is_empty,
  arith, Bool-cases, inl, inr, on_true, on_false,
}
use mathlib.Core.Path.{subst}
use codex_shim.Prelude.Dict.{get}
use codex_shim.Json.{Json}
use codex_shim.History.{
  ToolCall, Message, calling, History, append, or_empty, id_text, flush_call, flush_calls, flush,
  pending_ids,
}
use codex_shim.History.Calls.{
  ids_after, AreCalled, AreCalled-append, ids_after-append, ids_after-kept, AreFor-AreCalled,
  AllFor, get-AllFor, pop-AllFor, mem-left,
}

known_other :
    (k j : Text) (ids : List Text) → text_eq k j ≡ false → mem j (k ∷ ids) ≡ true → mem j ids ≡ true
unfolding mem
known_other k j ids other e = ground (arith, other, e)

module _ (py_str : Json → Text) (free : List Text) where
  -- the ids that the messages so far call
  abbrev pub ids_of : History → List Text
  ids_of h = ids_after py_str [] h.messages

  pub record IsOrdered (h : History) : Type 0 where
    pub called : AreCalled py_str free [] h.messages
    pub known : (k : Text) → mem k h.emitted ≡ true → mem k (ids_of h) ≡ true
    pub kept : AllFor py_str h.deferred

  -- A state that comes later: in order, and calling what was called.
  record Follows (h later : History) : Type 0 where
    ordered : IsOrdered later
    keeps : (k : Text) → mem k (ids_of h) ≡ true → mem k (ids_of later) ≡ true

  pub ids_of-append :
      (k : Text) (messages : List Message) (h : History)
      → mem k (ids_of h) ≡ true
      → mem k (ids_of (append messages h)) ≡ true
  ids_of-append k messages h e =
      subst (λ ids. mem k ids ≡ true) (sym (ids_after-append py_str [] h.messages messages))
        (ids_after-kept py_str k (ids_of h) messages e)

  pub append-IsOrdered :
      (messages : List Message) (h : History)
      → IsOrdered h
      → AreCalled py_str free (ids_of h) messages
      → IsOrdered (append messages h)
  append-IsOrdered messages h w more = record {
    called = AreCalled-append py_str free [] h.messages messages w.called more;
    known = λ k e. ids_of-append k messages h (w.known k e);
    kept = w.kept;
  }

  append-Follows :
      (messages : List Message) (h : History)
      → IsOrdered h
      → AreCalled py_str free (ids_of h) messages
      → Follows h (append messages h)
  append-Follows messages h w more = record {
    ordered = append-IsOrdered messages h w more;
    keeps = λ k e. ids_of-append k messages h e;
  }

  flush_call-Follows :
      (call : ToolCall) (h : History)
      → IsOrdered h
      → mem (id_text py_str call.id) (ids_of h) ≡ true
      → Follows h (flush_call py_str call h)
  unfolding flush_call
  flush_call-Follows call h w there =
      let k = id_text py_str call.id in
      let answers = or_empty (get k h.deferred) in
      let answering = append-Follows answers h w (
        AreFor-AreCalled py_str free k (ids_of h) answers there
          (get-AllFor py_str k h.deferred w.kept)) in
      elim (Bool-cases (is_empty k)) [
        | inl nameless ↦ on_true (Follows h) nameless h _ (record { ordered = w; keeps = λ j e. e })
        | inr named ↦ on_false (Follows h) named h _ (record {
          ordered = record {
            called = answering.ordered.called;
            known = λ j e. elim (Bool-cases (text_eq k j)) [
              | inl same ↦
                  subst (λ i. mem i (ids_of (append answers h)) ≡ true) ((text_eq_iff k j).0 same)
                    (answering.keeps k there)
              | inr other ↦ answering.ordered.known j (known_other k j h.emitted other e)
            ];
            kept = pop-AllFor py_str k h.deferred w.kept;
          };
          keeps = λ j e. answering.keeps j e;
        })
      ]

  Follows-trans : (a b c : History) → Follows a b → Follows b c → Follows a c
  Follows-trans a b c v w = record { ordered = w.ordered; keeps = λ k e. w.keeps k (v.keeps k e) }

  flush_calls-Follows :
      (calls : List ToolCall) (h : History)
      → IsOrdered h
      → ((k : Text) → mem k (pending_ids py_str calls) ≡ true → mem k (ids_of h) ≡ true)
      → Follows h (flush_calls py_str calls h)
  unfolding flush_calls mem
  flush_calls-Follows [] h w there = record { ordered = w; keeps = λ k e. e }
  flush_calls-Follows (call ∷ calls) h w there =
      let k = id_text py_str call.id in
      let first =
        flush_call-Follows call h w (there k (ground (arith, (text_eq_iff k k).1 refl))) in
      Follows-trans h (flush_call py_str call h) _ first (
        flush_calls-Follows calls (flush_call py_str call h) first.ordered
          (λ j e. first.keeps j (there j (ground (arith, e)))))

  begun : (h : History) → IsOrdered h → IsOrdered (append (calling h.pending ∷ []) h)
  unfolding AreCalled
  begun h w = append-IsOrdered (calling h.pending ∷ []) h w tt

  begun-called :
      (h : History) (k : Text)
      → mem k (pending_ids py_str h.pending) ≡ true
      → mem k (ids_of (append (calling h.pending ∷ []) h)) ≡ true
  unfolding ids_after
  begun-called h k e =
      subst (λ ids. mem k ids ≡ true)
        (sym (ids_after-append py_str [] h.messages (calling h.pending ∷ [])))
        (mem-left k (pending_ids py_str h.pending) (ids_of h) e)

  flushed-Follows :
      (h : History)
      → IsOrdered h
      → let begin = append (calling h.pending ∷ []) h in
        Follows begin (flush_calls py_str h.pending begin)
  flushed-Follows h w =
      flush_calls-Follows h.pending (append (calling h.pending ∷ []) h) (begun h w)
        (λ k e. begun-called h k e)

  pub flush-IsOrdered : (h : History) → IsOrdered h → IsOrdered (flush py_str h)
  unfolding flush
  flush-IsOrdered h w =
      let f = flushed-Follows h w in
      elim (Bool-cases (is_empty h.pending)) [
        | inl idle ↦ on_true IsOrdered idle h _ w
        | inr busy ↦
            on_false IsOrdered busy h _
              (record { called = f.ordered.called; known = f.ordered.known; kept = f.ordered.kept })
      ]

  -- After the flush the pending calls are called.
  pub flush-called :
      (h : History) (k : Text)
      → IsOrdered h
      → mem k (pending_ids py_str h.pending) ≡ true
      → mem k (ids_of (flush py_str h)) ≡ true
  unfolding flush mem
  flush-called h k w e =
      let f = flushed-Follows h w in
      elim (Bool-cases (is_empty h.pending)) [
        | inl idle ↦ absurd (nothing_pending h.pending idle e)
        | inr busy ↦
            on_false (λ t. mem k (ids_of t) ≡ true) busy h _ (f.keeps k (begun-called h k e))
      ]
    where
      nothing_pending :
          (calls : List ToolCall)
          → is_empty calls ≡ true
          → mem k (pending_ids py_str calls) ≡ true
          → ⊥
      nothing_pending [] idle e = cc
      nothing_pending (call ∷ calls) idle e = cc

  -- What is called stays called.
  pub flush-keeps :
      (h : History) (k : Text)
      → IsOrdered h
      → mem k (ids_of h) ≡ true
      → mem k (ids_of (flush py_str h)) ≡ true
  unfolding flush
  flush-keeps h k w e =
      let f = flushed-Follows h w in
      elim (Bool-cases (is_empty h.pending)) [
        | inl idle ↦ on_true (λ t. mem k (ids_of t) ≡ true) idle h _ e
        | inr busy ↦
            on_false (λ t. mem k (ids_of t) ≡ true) busy h _
              (f.keeps k (ids_of-append k (calling h.pending ∷ []) h e))
      ]
