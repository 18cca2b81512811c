-- ===== src/Continuation/Expansion.antt =====
-- When a continuation is expanded, in words of the protocol.
use codex_shim.Prelude.{
  ◌≡◌, ◌↔◌, refl, sym, ap, ◌∙◌, inl, inr, Bool, true, false, not, ◌&&◌, Option, none, some, Text,
  text_eq_iff, arith, codes, Bool-cases, Option-cases,
}
use mathlib.Core.Path.{subst}
use codex_shim.Json.{Json, null, bool, int, str, arr, obj, Fields, find, truthy}
use codex_shim.Continuation.{
  Surface, http, ws, Route, chatgpt_codex, byok, cursor, local, is_chatgpt_ws, previous_response_id,
  is_last_chained, should_expand_continuation,
}

-- The upstream has the conversation: expansion is not forced, the request came in over a WebSocket and goes
-- to ChatGPT, on the connection of the turn before, and the response that it continues, an id that is not
-- empty, is the last one of that connection.
pub record IsChained (force : Bool) (surface : Surface) (route : Route) (reused : Bool)
    (last_chained : Option Text) (previous : Json) : Type 0 where
  pub unforced : force ≡ false
  pub over_ws : surface ≡ ws
  pub to_chatgpt : route ≡ chatgpt_codex
  pub connected : reused ≡ true
  pub id : Text
  pub continued : previous ≡ str id
  pub is_last : last_chained ≡ some id

abbrev chains : Bool → Surface → Route → Bool → Option Text → Json → Bool
chains force surface route reused last_chained previous =
    is_chatgpt_ws surface route && (not force && (reused && is_last_chained last_chained previous))

expand_line :
    (force : Bool) (surface : Surface) (route : Route) (reused : Bool) (last_chained : Option Text)
    (body : Json)
    → should_expand_continuation force surface route reused last_chained body ≡ (
        truthy (previous_response_id body)
        && not (chains force surface route reused last_chained (previous_response_id body)))
unfolding should_expand_continuation
expand_line force surface route reused last_chained body = ground arith

and_parts : (a b : Bool) → (a && b) ≡ true → (a ≡ true) × (b ≡ true)
and_parts true b e = (refl, e)
and_parts false b e = cc

flipped : (b : Bool) → not b ≡ true → b ≡ false
flipped true e = cc
flipped false e = refl

ws_parts :
    (surface : Surface) (route : Route)
    → is_chatgpt_ws surface route ≡ true
    → (surface ≡ ws) × (route ≡ chatgpt_codex)
ws_parts ws chatgpt_codex e = (refl, refl)
ws_parts ws byok e = cc
ws_parts ws cursor e = cc
ws_parts ws local e = cc
ws_parts http chatgpt_codex e = cc
ws_parts http byok e = cc
ws_parts http cursor e = cc
ws_parts http local e = cc

last_parts :
    (last_chained : Option Text) (previous : Json)
    → truthy previous ≡ true
    → is_last_chained last_chained previous ≡ true
    → (id : Text) × (previous ≡ str id) × (last_chained ≡ some id)
last_parts (some last) (str id) t e = (id, refl, ap (λ x. some x) ((text_eq_iff last id).0 e))
last_parts none null t e = cc
last_parts none (str id) t e = cc
last_parts none (bool b) t e = cc
last_parts none (int n) t e = cc
last_parts none (arr items) t e = cc
last_parts none (obj d) t e = cc
last_parts (some last) null t e = cc
last_parts (some last) (bool b) t e = cc
last_parts (some last) (int n) t e = cc
last_parts (some last) (arr items) t e = cc
last_parts (some last) (obj d) t e = cc

module _ (force : Bool) (surface : Surface) (route : Route) (reused : Bool)
    (last_chained : Option Text) where
  chains-IsChained :
      (previous : Json)
      → truthy previous ≡ true
      → chains force surface route reused last_chained previous ≡ true
      → IsChained force surface route reused last_chained previous
  chains-IsChained previous t e =
      let (over, rest) = and_parts (is_chatgpt_ws surface route) _ e in
      let (unforced, more) = and_parts (not force) _ rest in
      let (connected, last) = and_parts reused _ more in
      let (on_ws, codex) = ws_parts surface route over in
      let (id, continued, is_last) = last_parts last_chained previous t last in
      record {
        unforced = flipped force unforced;
        over_ws = on_ws;
        to_chatgpt = codex;
        connected = connected;
        id = id;
        continued = continued;
        is_last = is_last;
      }

  IsChained-chains :
      (previous : Json)
      → IsChained force surface route reused last_chained previous
      → chains force surface route reused last_chained previous ≡ true
  IsChained-chains previous w =
      rw (w.unforced, w.over_ws, w.to_chatgpt, w.connected, w.continued, w.is_last)
        ((text_eq_iff w.id w.id).1 refl)

  expands :
      (previous : Json)
      → (truthy previous && not (chains force surface route reused last_chained previous)) ≡ true
      → (truthy previous ≡ true) × ¬ IsChained force surface route reused last_chained previous
  expands previous e =
      let (named, free) = and_parts (truthy previous) _ e in
      (named, λ w. absurd (ground (arith, flipped _ free, IsChained-chains previous w)))

  must_expand :
      (previous : Json)
      → truthy previous ≡ true
      → ¬ IsChained force surface route reused last_chained previous
      → (truthy previous && not (chains force surface route reused last_chained previous)) ≡ true
  must_expand previous named free =
      elim (Bool-cases (chains force surface route reused last_chained previous)) [
        | inl chained ↦ absurd (free (chains-IsChained previous named chained))
        | inr loose ↦ ground (arith, named, loose)
      ]

-- The field `previous_response_id` of an object, with a value that is truthy.
pub data Continues (body id : Json) : Type 0 where
  continues :
      (d : Fields)
      → body ≡ obj d
      → find (codes "previous_response_id") d ≡ some id
      → truthy id ≡ true
      → Continues body id

named_by :
    (body : Json)
    → truthy (previous_response_id body) ≡ true
    → Continues body (previous_response_id body)
unfolding previous_response_id
named_by (obj d) t = elim (Option-cases (find (codes "previous_response_id") d)) [
  | inl absent ↦
      let missing : previous_response_id (obj d) ≡ null = rw (absent, previous_response_id) refl in
      let blank : false ≡ true = ap truthy (sym missing) ∙ t in cc
  | inr (v, there) ↦
      let same : previous_response_id (obj d) ≡ v = rw (there, previous_response_id) refl in
      continues d refl (there ∙ ap (λ x. some x) (sym same)) t
]
named_by null t = cc
named_by (bool b) t = cc
named_by (int n) t = cc
named_by (str x) t = cc
named_by (arr items) t = cc

names_it :
    (body id : Json) → Continues body id → (previous_response_id body ≡ id) × (truthy id ≡ true)
unfolding previous_response_id
names_it body id (continues d e there named) = (rw e (rw (there, previous_response_id) refl), named)

-- A continuation is expanded exactly if its body names a response, unless it came in over a WebSocket, goes
-- to ChatGPT on the connection of the turn before, continues the last response of that connection, and
-- expansion is not forced.
pub should_expand_continuation-exactly :
    (force : Bool) (surface : Surface) (route : Route) (reused : Bool) (last_chained : Option Text)
    (body : Json)
    → (should_expand_continuation force surface route reused last_chained body ≡ true)
      ↔ ((id : Json) × Continues body id × ¬ IsChained force surface route reused last_chained id)
should_expand_continuation-exactly force surface route reused last_chained body = (
  λ e.
      let previous = previous_response_id body in
      let (named, free) =
        expands force surface route reused last_chained previous
          (sym (expand_line force surface route reused last_chained body) ∙ e) in
      (previous, named_by body named, free),
  λ (id, there, free).
      let previous = previous_response_id body in
      let (same, named) = names_it body id there in
      expand_line force surface route reused last_chained body
      ∙ must_expand force surface route reused last_chained previous (ap truthy same ∙ named)
          (subst (λ v. ¬ IsChained force surface route reused last_chained v) (sym same) free),
)
