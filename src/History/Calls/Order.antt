-- ===== src/History/Calls/Order.antt =====
-- `_responses_input_to_messages` puts each output after its call.
use codex_shim.Prelude.{
  ◌≡◌, refl, Bool, true, false, Option, none, some, List, [], ◌∷◌, Text, Text-Eq, codes, mem,
  is_empty, arith, Bool-cases, inl, inr, on_true, on_false,
}
use codex_shim.Prelude.Dict.{Dict, get}
use codex_shim.Json.{Json, str, Fields, find}
use codex_shim.History.{
  ToolCall, Message, Contents, History, or_empty, id_text, flush, pending_ids, defer, place_output,
}
use codex_shim.History.Search.{or_null}
use codex_shim.History.Parts.{pending_call, user_if, messages_if, shown, output_messages}
use codex_shim.History.Calls.{
  is_called, AreCalled, AreFor, AreFor-append, AreFor-AreCalled, get-AllFor, put-AllFor,
}
use codex_shim.History.Calls.Flushes.{
  ids_of, IsOrdered, append-IsOrdered, flush-IsOrdered, flush-called,
}

pub id_text-str : (py_str : Json → Text) (k : Text) → id_text py_str (str k) ≡ k
id_text-str py_str [] = refl
id_text-str py_str (c ∷ k) = refl

module _ (py_str : Json → Text) (free : List Text) where
  pub pending_call-IsOrdered :
      (call : ToolCall) (h : History)
      → IsOrdered py_str free h
      → IsOrdered py_str free (pending_call call h)
  pending_call-IsOrdered call h w = record { called = w.called; known = w.known; kept = w.kept }

  defer-IsOrdered :
      (k : Text) (messages : List Message) (h : History)
      → IsOrdered py_str free h
      → AreFor py_str k messages
      → IsOrdered py_str free (defer py_str k messages h)
  unfolding defer
  defer-IsOrdered k messages h w answers = record {
    called = w.called;
    known = w.known;
    kept =
        put-AllFor py_str k _ h.deferred
          (AreFor-append py_str k (or_empty (get k h.deferred)) messages
            (get-AllFor py_str k h.deferred w.kept) answers)
          w.kept;
  }

  pub place_output-IsOrdered :
      (k : Text) (messages : List Message) (h : History)
      → IsOrdered py_str free h
      → (is_empty k ≡ true → (ids : List Text) → AreCalled py_str free ids messages)
      → (is_empty k ≡ false → AreFor py_str k messages)
      → IsOrdered py_str free (place_output py_str k messages h)
  unfolding place_output
  place_output-IsOrdered k messages h w nameless named =
      let Good = IsOrdered py_str free in
      let flushed = flush-IsOrdered py_str free h w in
      elim (Bool-cases (is_empty k)) [
        | inl absent ↦ on_true Good absent _ _ (
            append-IsOrdered py_str free messages (flush py_str h) flushed
              (nameless absent (ids_of py_str free (flush py_str h))))
        | inr there ↦
            on_false Good there _ _ (elim (Bool-cases (mem k (pending_ids py_str h.pending))) [
              | inl pending ↦ on_true Good pending _ _ (
                  append-IsOrdered py_str free messages (flush py_str h) flushed (
                    AreFor-AreCalled py_str free k (ids_of py_str free (flush py_str h)) messages
                      (flush-called py_str free h k w pending) (named there)))
              | inr later ↦ on_false Good later _ _ (elim (Bool-cases (mem k h.emitted)) [
                | inl emitted ↦ on_true Good emitted _ _ (
                    append-IsOrdered py_str free messages h w (
                      AreFor-AreCalled py_str free k (ids_of py_str free h) messages
                        (w.known k emitted) (named there)))
                | inr unknown ↦
                    on_false Good unknown _ _ (defer-IsOrdered k messages h w (named there))
              ])
            ])
      ]

  shown-AreCalled : (o : Option Json) (ids : List Text) → AreCalled py_str free ids (shown o)
  unfolding AreCalled
  shown-AreCalled none ids = tt
  shown-AreCalled (some content) ids = tt

  shown-AreFor : (o : Option Json) (k : Text) → AreFor py_str k (shown o)
  shown-AreFor none k = tt
  shown-AreFor (some content) k = tt

  pub user_if-AreCalled :
      (told : Bool) (text : Text) (ids : List Text) → AreCalled py_str free ids (user_if told text)
  unfolding AreCalled
  user_if-AreCalled true text ids = tt
  user_if-AreCalled false text ids = tt

  pub agent-AreCalled :
      (o : Option Json) (ids : List Text) → AreCalled py_str free ids (messages_if o)
  unfolding AreCalled
  agent-AreCalled none ids = tt
  agent-AreCalled (some message) ids = tt

module _ (c : Contents) (free : List Text) where
  pub output-AreCalled :
      (names : Dict Text Text) (d : Fields)
      → is_empty (id_text c.py_str (or_null (find (codes "call_id") d))) ≡ true
      → (ids : List Text) → AreCalled c.py_str free ids (output_messages c names d)
  unfolding output_messages AreCalled
  output-AreCalled names d nameless ids =
      let call_id = or_null (find (codes "call_id") d) in
      (
        on_true (λ i. is_called c.py_str ids i ≡ true) nameless call_id
            (str (id_text c.py_str call_id)) (ground (arith, nameless)),
        shown-AreCalled c.py_str free _ ids,
      )

  pub output-AreFor :
      (names : Dict Text Text) (d : Fields)
      → let k = id_text c.py_str (or_null (find (codes "call_id") d)) in
        is_empty k ≡ false → AreFor c.py_str k (output_messages c names d)
  unfolding output_messages
  output-AreFor names d named =
      let call_id = or_null (find (codes "call_id") d) in
      let k = id_text c.py_str call_id in
      (
        on_false (λ i. id_text c.py_str i ≡ k) named call_id (str k) (id_text-str c.py_str k),
        shown-AreFor c.py_str free _ k,
      )
