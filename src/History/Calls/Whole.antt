-- ===== src/History/Calls/Whole.antt =====
-- The order of calls and outputs in what `_responses_input_to_messages` makes.
use codex_shim.Prelude.{
  ◌≡◌, ◌⊎◌, inl, inr, refl, true, false, Bool-cases, on_false, text_eq, if◌then◌else◌, List, [],
  ◌∷◌, ◌++◌, Text, Text-Eq, text_eq_iff, mem, arith,
}
use codex_shim.Prelude.Dict.{Dict}
use codex_shim.Json.{Json, null, bool, int, str, arr, obj, Fields, of_items}
use codex_shim.History.{Message, Contents, History, new_history, id_text, flush}
use codex_shim.History.Items.{function_call_name_map, orphan_tool_name}
use codex_shim.History.Conversion.{
  Kind, chat_message, input_part, computer_output, tool_call, tool_output, web_search, search_call,
  search_output, mcp_call, compaction_item, agent_item, reasoning_item, other_item, kind_of,
  convert_kind, convert_item, convert_items, orphan_messages, convert, responses_input_to_messages,
}
use codex_shim.History.Calls.{AreCalled, AreCalled-append, AreFor-AreCalled, AllFor, mem-right}
use codex_shim.History.Calls.Flushes.{ids_of, IsOrdered, append-IsOrdered, flush-IsOrdered}
use codex_shim.History.Calls.Kinds.{Ordered, Fits, convert_kind-Ordered}
use codex_shim.History.Calls.Held.{convert_kind-IsHeld, convert_kind-calls}
use codex_shim.History.Calls.Searches.{
  kind_calls, item_calls, searched_id, kind_uncalled, item_uncalled, uncalled_searches, IsHeld,
  flush-IsHeld, flushed-IsHeld,
}
use codex_shim.History.Calls.Order.{id_text-str}

mem-either :
    (k : Text) (xs ys : List Text) → mem k (xs ++ ys) ≡ true → (mem k xs ≡ true) ⊎ (mem k ys ≡ true)
unfolding mem
mem-either k [] ys e = inr e
mem-either k (x ∷ xs) ys e = elim (Bool-cases (text_eq x k)) [
  | inl same ↦ inl (ground (arith, same))
  | inr other ↦ elim (mem-either k xs ys (ground (arith, other, e))) [
    | inl here ↦ inl (ground (arith, here))
    | inr there ↦ inr there
  ]
]

module _ (c : Contents) (free : List Text) where
  -- What is called is held, and what is answered without a call is listed.
  record Keeps (called uncalled : List Text) (h : History) : Type 0 where
    ordered : Ordered c free h
    held : (k : Text) → mem k called ≡ true → IsHeld c.py_str free k h
    listed : (k : Text) → mem k uncalled ≡ true → mem k free ≡ true

  listed_here :
      (id : Text) (called more : List Text)
      → mem id called ≡ false
      → mem id ((if mem id called then [] else id ∷ []) ++ more) ≡ true
  unfolding mem
  listed_here id called more absent =
      on_false (λ (ids : List Text). mem id (ids ++ more) ≡ true) absent _ _
        (ground (arith, (text_eq_iff id id).1 refl))

  searches_fit :
      (kind : Kind) (d : Fields) (called more : List Text) (h : History)
      → Keeps called (kind_uncalled c called kind d ++ more) h
      → Fits c free kind d h
  searches_fit search_output d called more h w =
      let id = searched_id c d in
      elim (Bool-cases (mem id called)) [
        | inl there ↦ ground (arith, flush-IsHeld c.py_str free id h w.ordered (w.held id there))
        | inr absent ↦ ground (arith, w.listed id (listed_here id called more absent))
      ]
  searches_fit tool_call d called more h w = tt
  searches_fit search_call d called more h w = tt
  searches_fit tool_output d called more h w = tt
  searches_fit web_search d called more h w = tt
  searches_fit mcp_call d called more h w = tt
  searches_fit compaction_item d called more h w = tt
  searches_fit agent_item d called more h w = tt
  searches_fit chat_message d called more h w = tt
  searches_fit input_part d called more h w = tt
  searches_fit computer_output d called more h w = tt
  searches_fit reasoning_item d called more h w = tt
  searches_fit other_item d called more h w = tt

  convert_kind-Keeps :
      (kind : Kind) (names : Dict Text Text) (d : Fields) (called more : List Text) (h : History)
      → Keeps called (kind_uncalled c called kind d ++ more) h
      → Keeps (kind_calls c kind d ++ called) more (convert_kind c kind names d h)
  convert_kind-Keeps kind names d called more h w = record {
    ordered =
        convert_kind-Ordered c free kind names d h w.ordered (searches_fit kind d called more h w);
    held = λ k e. elim (mem-either k (kind_calls c kind d) called e) [
      | inl new ↦ convert_kind-calls c free kind names k d h new
      | inr old ↦ convert_kind-IsHeld c free kind names k d h w.ordered (w.held k old)
    ];
    listed = λ k e. w.listed k (mem-right k (kind_uncalled c called kind d) more e);
  }

  convert_item-Keeps :
      (names : Dict Text Text) (item : Json) (called more : List Text) (h : History)
      → Keeps called (item_uncalled c called item ++ more) h
      → Keeps (item_calls c item ++ called) more (convert_item c names item h)
  unfolding convert_item AreCalled
  convert_item-Keeps names (str t) called more h w = record {
    ordered =
        append-IsOrdered c.py_str free _ (flush c.py_str h)
          (flush-IsOrdered c.py_str free h w.ordered) tt;
    held = λ k e. flushed-IsHeld c.py_str free k _ h w.ordered (w.held k e);
    listed = w.listed;
  }
  convert_item-Keeps names (obj d) called more h w =
      convert_kind-Keeps (kind_of d) names d called more h w
  convert_item-Keeps names null called more h w = w
  convert_item-Keeps names (bool b) called more h w = w
  convert_item-Keeps names (int n) called more h w = w
  convert_item-Keeps names (arr items) called more h w = w

  convert_items-Ordered :
      (names : Dict Text Text) (items : List Json) (called : List Text) (h : History)
      → Keeps called (uncalled_searches c called items) h
      → Ordered c free (convert_items c names items h)
  unfolding convert_items uncalled_searches
  convert_items-Ordered names [] called h w = w.ordered
  convert_items-Ordered names (item ∷ items) called h w =
      convert_items-Ordered names items (item_calls c item ++ called) (convert_item c names item h)
        (convert_item-Keeps names item called _ h w)

  orphan-AreCalled :
      (name : Text) (d : Dict Text (List Message)) (ids : List Text)
      → AllFor c.py_str d
      → AreCalled c.py_str free ids (orphan_messages c name d)
  unfolding orphan_messages AreCalled mem
  orphan-AreCalled name [] ids kept = tt
  orphan-AreCalled name ((k, messages) ∷ d) ids (answers, kept) =
      let called : mem k (id_text c.py_str (str k) ∷ ids) ≡ true =
        ground (arith, (text_eq_iff (id_text c.py_str (str k)) k).1 (id_text-str c.py_str k)) in
      AreCalled-append c.py_str free _ messages (orphan_messages c name d)
        (AreFor-AreCalled c.py_str free k _ messages called answers)
        (orphan-AreCalled name d _ kept)

  convert-AreCalled :
      (advertised : List Text) (items : List Json)
      → ((k : Text) → mem k (uncalled_searches c [] items) ≡ true → mem k free ≡ true)
      → AreCalled c.py_str free [] (convert c advertised items)
  unfolding convert AreCalled mem
  convert-AreCalled advertised items listed =
      let names = function_call_name_map c.py_str items [] in
      let start : IsOrdered c.py_str free new_history = record {
        called = tt;
        known = λ k e. cc;
        kept = tt;
      } in
      let whole =
        convert_items-Ordered names items [] new_history
          (record { ordered = start; held = λ k e. cc; listed = listed }) in
      let h = flush c.py_str (convert_items c names items new_history) in
      let orphans = orphan_messages c (orphan_tool_name advertised) h.deferred in
      let over = flush-IsOrdered c.py_str free (convert_items c names items new_history) whole in
      AreCalled-append c.py_str free [] h.messages orphans over.called (
        orphan-AreCalled (orphan_tool_name advertised) h.deferred (ids_of c.py_str free h)
          over.kept)

-- the items of an input
abbrev pub items_of_input : Json → List Json
items_of_input (arr items) = of_items items
items_of_input value = []

module _ (c : Contents) where
  -- Whatever the input of a request is, and in whatever order its calls and outputs stand: in the messages
  -- that a chat completion is sent, each output with the id of a call, a text that is not empty, stands after
  -- a message of the assistant that makes a call with this id, be it that of the input or one made up for it;
  -- but not the result of a tool search that the input has with no call of its id, of a function, a custom
  -- tool or a tool search, before it.
  pub responses_input_to_messages-AreCalled :
      (value : Json) (advertised : List Text)
      → AreCalled c.py_str
          (uncalled_searches c [] (items_of_input value))
          []
          (responses_input_to_messages c value advertised)
  unfolding responses_input_to_messages AreCalled
  responses_input_to_messages-AreCalled null advertised = tt
  responses_input_to_messages-AreCalled (str t) advertised = tt
  responses_input_to_messages-AreCalled (arr items) advertised =
      convert-AreCalled c (uncalled_searches c [] (of_items items)) advertised (of_items items)
        (λ k e. e)
  responses_input_to_messages-AreCalled (bool b) advertised = tt
  responses_input_to_messages-AreCalled (int n) advertised = tt
  responses_input_to_messages-AreCalled (obj d) advertised = tt
