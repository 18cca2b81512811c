-- ===== src/Router/Scores.antt =====
-- The classifier's scores, and the choice among the candidates. `json.loads` and Python's `float` are
-- parameters; a float is a whole number of millionths.
pub mod Best
pub mod Pools
use codex_shim.Prelude.{
  ℕ, zero, suc, min, Bool, true, false, not, ◌&&◌, ◌||◌, Option, none, some, List, [], ◌∷◌, map,
  Text, codes, Text-Eq, text_eq, nat_eq, ltb, leb, any_of, keep_if, if◌then◌else◌,
}
use codex_shim.Prelude.Dict.{Dict, get}
use codex_shim.Json.{Json, obj, ℤ, pos, negsuc, Fields, find}
use codex_shim.Pipeline.Items.{field_of}
use codex_shim.Router.{RouterCandidate, RouterConfig}

abbrev pub one : ℕ
one = 1000000

-- _clamp01; `none` is a value that `float` refuses
abbrev pub clamp01 : Option ℤ → ℕ
clamp01 none = 0
clamp01 (some (negsuc n)) = 0
clamp01 (some (pos n)) = min n one

-- text[start:], from the first "{"
unfoldable pub from_brace : Text → Option Text
from_brace [] = none
from_brace (c ∷ t) = let rest = from_brace t in if nat_eq c 123 then some (c ∷ t) else rest

-- the text up to the first "}", and that up to the last
unfoldable pub to_first_brace : Text → Option Text
to_first_brace [] = none
to_first_brace (c ∷ t) =
    let rest : Option Text = elim (to_first_brace t) [ none ↦ none | some s ↦ some (c ∷ s) ] in
    if nat_eq c 125 then some (c ∷ []) else rest

unfoldable pub to_last_brace : Text → Option Text
to_last_brace [] = none
to_last_brace (c ∷ t) = elim (to_last_brace t) [
  | some s ↦ some (c ∷ s)
  | none ↦ if nat_eq c 125 then some (c ∷ []) else none
]

abbrev pub Scores : Type 0
Scores = Dict Text ℕ

-- obj.get("scores"), if both are objects
unfoldable pub scores_object : Json → Option Fields
unfolding find text_eq
scores_object v = elim (field_of (codes "scores") v) [ some (obj d) ↦ some d | _ ↦ none ]

module _ (loads : Text → Option Json) (float_of : Json → Option ℤ) where
  -- {slug: _clamp01(scores.get(slug, 0)) for slug in candidate_slugs}
  unfoldable pub read_scores : List Text → Fields → Scores
  unfolding find
  read_scores slugs d =
      map (λ (slug : Text). (slug, elim (find slug d) [ none ↦ 0 | some v ↦ clamp01 (float_of v) ]))
        slugs

  -- one of the two texts that are tried
  unfoldable pub try_scores : List Text → Option Text → Option Scores
  unfolding read_scores scores_object
  try_scores slugs none = none
  try_scores slugs (some text) = elim (loads text) [
    | none ↦ none
    | some v ↦ elim (scores_object v) [ none ↦ none | some d ↦ some (read_scores slugs d) ]
  ]

  unfoldable pub parse_scores : Text → List Text → Scores
  unfolding try_scores from_brace to_first_brace to_last_brace
  parse_scores text slugs = elim (from_brace text) [
    | none ↦ []
    | some t ↦ elim (try_scores slugs (to_last_brace t)) [
      | some scores ↦ scores
      | none ↦ elim (try_scores slugs (to_first_brace t)) [ none ↦ [] | some scores ↦ scores ]
    ]
  ]

-- Python's `min` and `max` with a key, on a list with a head: the first of the best.
unfoldable pub first_best {ℓ} : {A : Type ℓ} → (A → A → Bool) → A → List A → A
first_best better x [] = x
first_best better x (y ∷ ys) = first_best better (if better y x then y else x) ys

abbrev pub Scored : Type 0
Scored = RouterCandidate × ℕ

abbrev pub or_zero : Option ℕ → ℕ
or_zero none = 0
or_zero (some n) = n

-- scored.append((c, score))
unfoldable pub score_of : Scores → Bool → RouterCandidate → ℕ
unfolding get
score_of scores has_image_task c =
    if has_image_task && not c.supports_images then 0 else or_zero (get c.slug scores)

unfoldable pub scored : Scores → Bool → List RouterCandidate → List Scored
unfolding score_of
scored scores has_image_task = map (λ c. (c, score_of scores has_image_task c))

-- key=lambda cs: (float(cs[0].cost or 0), -cs[1])
abbrev pub cheaper : Scored → Scored → Bool
cheaper (c, s) (d, t) = ltb c.cost d.cost || nat_eq c.cost d.cost && ltb t s

abbrev pub higher : Scored → Scored → Bool
higher (c, s) (d, t) = ltb t s

pub data Reason : Type 0 where
  cheapest_above below_bar no_usable_score empty_scores cached_pick no_classifier classifier_error
        single_candidate no_candidates :
      Reason

pub record Pick : Type 0 where
  pub slug : Option Text
  pub score : ℕ
  pub why : Reason

abbrev pub no_pick : Pick
no_pick = record { slug = none; score = 0; why = no_usable_score }

abbrev pub pick_best : Scored → Pick
pick_best (c, s) =
    if ltb 0 s then record { slug = some c.slug; score = s; why = below_bar } else no_pick

abbrev pub pick_above : List Scored → List Scored → Pick
pick_above (x ∷ viable) all =
    let winner = first_best cheaper x viable in
    record { slug = some winner.0.slug; score = winner.1; why = cheapest_above }
pick_above [] [] = no_pick
pick_above [] (x ∷ all) = pick_best (first_best higher x all)

abbrev pub is_viable : ℕ → Scored → Bool
is_viable threshold (c, s) = leb threshold s

unfoldable pub pick_candidate : Scores → List RouterCandidate → ℕ → Bool → Pick
unfolding scored first_best
pick_candidate scores candidates threshold has_image_task =
    let all = scored scores has_image_task candidates in
    pick_above (keep_if (is_viable threshold) all) all

abbrev pub lower_cost : RouterCandidate → RouterCandidate → Bool
lower_cost c d = ltb c.cost d.cost

abbrev pub image_pool : Bool → List RouterCandidate → List RouterCandidate
image_pool true candidates = keep_if (λ (c : RouterCandidate). c.supports_images) candidates
image_pool false candidates = candidates

-- any(c.slug == slug for c in pool)
unfoldable pub has_slug : Text → List RouterCandidate → Bool
unfolding text_eq
has_slug slug pool = any_of (λ (c : RouterCandidate). text_eq c.slug slug) pool

abbrev pub default_or_cheapest : Option Text → List RouterCandidate → Option Text
default_or_cheapest default [] = none
default_or_cheapest none (c ∷ pool) = some (first_best lower_cost c pool).slug
default_or_cheapest (some slug) (c ∷ pool) =
    if has_slug slug (c ∷ pool) then some slug else some (first_best lower_cost c pool).slug

-- if config.default
abbrev pub nonempty_slug : Option Text → Option Text
nonempty_slug (some (c ∷ t)) = some (c ∷ t)
nonempty_slug _ = none

unfoldable pub fallback_slug : RouterConfig → List RouterCandidate → Bool → Option Text
unfolding first_best has_slug
fallback_slug config candidates has_image_task =
    default_or_cheapest (nonempty_slug config.default_slug) (image_pool has_image_task candidates)
