-- ===== src/History/Calls/Searches.antt =====
-- The tool searches that the input of `_responses_input_to_messages` answers but has not called.
use codex_shim.Prelude.{
  ◌≡◌, ◌⊎◌, true, List, [], ◌∷◌, ◌++◌, Text, Text-Eq, codes, text_eq_iff, mem, is_empty, arith,
  Bool-cases, inl, inr, on_true, on_false, if◌then◌else◌,
}
use codex_shim.Json.{Json, obj, Fields, find}
use codex_shim.History.{
  ToolCall, Message, Contents, History, append, id_text, flush, pending_ids, defer, place_output,
}
use codex_shim.History.Search.{or_null}
use codex_shim.History.Conversion.{Kind, tool_call, search_call, search_output, kind_of}
use codex_shim.History.Parts.{call_id_of, pending_call}
use codex_shim.History.Calls.Flushes.{ids_of, IsOrdered, ids_of-append, flush-called, flush-keeps}

module _ (c : Contents) where
  -- the ids that an item of a kind calls
  abbrev pub kind_calls : Kind → Fields → List Text
  kind_calls tool_call d = id_text c.py_str (call_id_of c d) ∷ []
  kind_calls search_call d = id_text c.py_str (call_id_of c d) ∷ []
  kind_calls kind d = []

  abbrev pub item_calls : Json → List Text
  item_calls (obj d) = kind_calls (kind_of d) d
  item_calls item = []

  abbrev pub searched_id : Fields → Text
  searched_id d = id_text c.py_str (or_null (find (codes "call_id") d))

  -- the id of a search's output, unless it was called
  abbrev pub kind_uncalled : List Text → Kind → Fields → List Text
  kind_uncalled called search_output d =
      if mem (searched_id d) called then [] else searched_id d ∷ []
  kind_uncalled called kind d = []

  abbrev pub item_uncalled : List Text → Json → List Text
  item_uncalled called (obj d) = kind_uncalled called (kind_of d) d
  item_uncalled called item = []

  -- The ids of the outputs of tool searches that no item before them calls, after some that are called.
  unfoldable pub uncalled_searches : List Text → List Json → List Text
  unfolding kind_of find mem
  uncalled_searches called [] = []
  uncalled_searches called (item ∷ items) =
      item_uncalled called item ++ uncalled_searches (item_calls item ++ called) items

pending-left :
    (py_str : Json → Text) (k : Text) (calls more : List ToolCall)
    → mem k (pending_ids py_str calls) ≡ true
    → mem k (pending_ids py_str (calls ++ more)) ≡ true
unfolding mem
pending-left py_str k [] more e = cc
pending-left py_str k (call ∷ calls) more e = ground (arith, e, pending-left py_str k calls more)

pub last-pending :
    (py_str : Json → Text) (k : Text) (call : ToolCall) (calls : List ToolCall)
    → id_text py_str call.id ≡ k
    → mem k (pending_ids py_str (calls ++ call ∷ [])) ≡ true
unfolding mem
last-pending py_str k call [] e = ground (arith, (text_eq_iff (id_text py_str call.id) k).1 e)
last-pending py_str k call (other ∷ calls) e = ground (arith, last-pending py_str k call calls e)

module _ (py_str : Json → Text) (free : List Text) where
  -- A call that a message makes or that is pending.
  abbrev pub IsHeld : Text → History → Type 0
  IsHeld k h = (mem k (ids_of py_str free h) ≡ true) ⊎ (mem k (pending_ids py_str h.pending) ≡ true)

  pub flush-IsHeld :
      (k : Text) (h : History)
      → IsOrdered py_str free h
      → IsHeld k h
      → mem k (ids_of py_str free (flush py_str h)) ≡ true
  flush-IsHeld k h w (inl made) = flush-keeps py_str free h k w made
  flush-IsHeld k h w (inr pending) = flush-called py_str free h k w pending

  pub append-IsHeld :
      (k : Text) (messages : List Message) (h : History) → IsHeld k h → IsHeld k (append messages h)
  append-IsHeld k messages h (inl made) = inl (ids_of-append py_str free k messages h made)
  append-IsHeld k messages h (inr pending) = inr pending

  pub flushed-IsHeld :
      (k : Text) (messages : List Message) (h : History)
      → IsOrdered py_str free h
      → IsHeld k h
      → IsHeld k (append messages (flush py_str h))
  flushed-IsHeld k messages h w held =
      append-IsHeld k messages (flush py_str h) (inl (flush-IsHeld k h w held))

  pub pending_call-IsHeld :
      (k : Text) (call : ToolCall) (h : History) → IsHeld k h → IsHeld k (pending_call call h)
  pending_call-IsHeld k call h (inl made) = inl made
  pending_call-IsHeld k call h (inr pending) =
      inr (pending-left py_str k h.pending (call ∷ []) pending)

  pub place_output-IsHeld :
      (k j : Text) (messages : List Message) (h : History)
      → IsOrdered py_str free h
      → IsHeld k h
      → IsHeld k (place_output py_str j messages h)
  unfolding place_output defer
  place_output-IsHeld k j messages h w held =
      let flushed = flushed-IsHeld k messages h w held in
      elim (Bool-cases (is_empty j)) [
        | inl absent ↦ on_true (IsHeld k) absent _ _ flushed
        | inr there ↦
            on_false (IsHeld k) there _ _
              (elim (Bool-cases (mem j (pending_ids py_str h.pending))) [
                | inl pending ↦ on_true (IsHeld k) pending _ _ flushed
                | inr later ↦ on_false (IsHeld k) later _ _ (elim (Bool-cases (mem j h.emitted)) [
                  | inl emitted ↦ on_true (IsHeld k) emitted _ _ (append-IsHeld k messages h held)
                  | inr unknown ↦ on_false (IsHeld k) unknown _ _ held
                ])
              ])
      ]
