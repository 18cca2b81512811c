-- ===== src/History/Kept.antt =====
-- No message that the items of a request stand for is lost or repeated by `_responses_input_to_messages`.
pub mod Whole
use codex_shim.Prelude.{
  ℕ, ◌+◌, ◌≡◌, refl, sym, ap, ◌∙◌, Bool, true, false, Option, none, some, List, [], ◌∷◌, ◌++◌, Text,
  Text-Eq, mem, is_empty, arith, Bool-cases, inl, inr, if◌then◌else◌, on_true, on_false, on_both,
}
use codex_shim.Prelude.Dict.{
  Dict, get, put, pop, Unique, pop-Unique, put-Unique, share, sum_of, sum_of-pop,
}
use codex_shim.Prelude.Dict.Sums.{sum_of-put-pop}
use codex_shim.Json.{Json}
use codex_shim.History.{
  ToolCall, Message, calling, History, append, or_empty, id_text, flush_call, flush_calls, flush,
  pending_ids, defer, place_output,
}

-- The weights of messages in a list, added up.
unfoldable pub total : (Message → ℕ) → List Message → ℕ
total weight [] = 0
total weight (message ∷ messages) = weight message + total weight messages

pub total-append :
    (weight : Message → ℕ) (xs ys : List Message)
    → total weight (xs ++ ys) ≡ total weight xs + total weight ys
unfolding total
total-append weight [] ys = omega arith
total-append weight (x ∷ xs) ys = omega (arith, total-append weight xs ys)

module _ (weight : Message → ℕ) where
  abbrev pub put_off : Dict Text (List Message) → ℕ
  put_off d = sum_of (λ k messages. total weight messages) d

  -- So much weight is in the messages and in those that are put off.
  pub record Weighs (h : History) (n : ℕ) : Type 0 where
    pub unique : Unique h.deferred
    pub sum : total weight h.messages + put_off h.deferred ≡ n

  pub append-Weighs :
      (messages : List Message) (h : History) (n : ℕ)
      → Weighs h n
      → Weighs (append messages h) (n + total weight messages)
  append-Weighs messages h n w = record {
    unique = w.unique;
    sum = omega (arith, w.sum, total-append weight h.messages messages);
  }

  share-total :
      (k : Text) (o : Option (List Message))
      → share (λ (j : Text) (messages : List Message). total weight messages) k o
        ≡ total weight (or_empty o)
  unfolding total
  share-total k none = refl
  share-total k (some messages) = refl

  module _ (py_str : Json → Text) where
    flush_call-Weighs :
        (call : ToolCall) (h : History) (n : ℕ) → Weighs h n → Weighs (flush_call py_str call h) n
    unfolding flush_call
    flush_call-Weighs call h n w =
        let k = id_text py_str call.id in
        let found = get k h.deferred in
        elim (Bool-cases (is_empty k)) [
          | inl nameless ↦ on_true (λ t. Weighs t n) nameless h _ w
          | inr named ↦
              on_false (λ t. Weighs t n) named h _
                (record {
                  unique = pop-Unique k h.deferred w.unique;
                  sum = omega (
                    arith,
                    w.sum,
                    total-append weight h.messages (or_empty found),
                    share-total k found,
                    sum_of-pop (λ (j : Text) (messages : List Message). total weight messages) k
                        h.deferred w.unique,
                  );
                })
        ]

    flush_calls-Weighs :
        (calls : List ToolCall) (h : History) (n : ℕ)
        → Weighs h n
        → Weighs (flush_calls py_str calls h) n
    unfolding flush_calls
    flush_calls-Weighs [] h n w = w
    flush_calls-Weighs (call ∷ calls) h n w =
        flush_calls-Weighs calls (flush_call py_str call h) n (flush_call-Weighs call h n w)

    defer-Weighs :
        (k : Text) (messages : List Message) (h : History) (n : ℕ)
        → Weighs h n
        → Weighs (defer py_str k messages h) (n + total weight messages)
    unfolding defer
    defer-Weighs k messages h n w =
        let found = get k h.deferred in
        let f = λ (j : Text) (ms : List Message). total weight ms in
        record {
          unique = put-Unique k (or_empty found ++ messages) h.deferred w.unique;
          sum = omega (
            arith,
            w.sum,
            total-append weight (or_empty found) messages,
            share-total k found,
            sum_of-pop f k h.deferred w.unique,
            sum_of-put-pop f k (or_empty found ++ messages) h.deferred w.unique,
          );
        }

    -- Messages of calls weigh nothing.
    module _ (light : (calls : List ToolCall) → weight (calling calls) ≡ 0) where
      pub flush-Weighs : (h : History) (n : ℕ) → Weighs h n → Weighs (flush py_str h) n
      unfolding flush total
      flush-Weighs h n w =
          let called = append-Weighs (calling h.pending ∷ []) h n w in
          let begin : Weighs (append (calling h.pending ∷ []) h) n = record {
            unique = w.unique;
            sum = omega (arith, called.sum, light h.pending);
          } in
          let flushed = flush_calls-Weighs h.pending (append (calling h.pending ∷ []) h) n begin in
          elim (Bool-cases (is_empty h.pending)) [
            | inl idle ↦ on_true (λ t. Weighs t n) idle h _ w
            | inr busy ↦
                on_false (λ t. Weighs t n) busy h _
                  (record { unique = flushed.unique; sum = flushed.sum })
          ]

      pub place_output-Weighs :
          (k : Text) (messages : List Message) (h : History) (n : ℕ)
          → Weighs h n
          → Weighs (place_output py_str k messages h) (n + total weight messages)
      unfolding place_output
      place_output-Weighs k messages h n w =
          let flushed = append-Weighs messages (flush py_str h) n (flush-Weighs h n w) in
          let Good = λ (t : History). Weighs t (n + total weight messages) in
          on_both Good (is_empty k) _ _ flushed (
            on_both Good (mem k (pending_ids py_str h.pending)) _ _ flushed (
              on_both Good (mem k h.emitted) _ _ (append-Weighs messages h n w)
                (defer-Weighs k messages h n w)))
