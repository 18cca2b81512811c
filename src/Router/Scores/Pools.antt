-- ===== src/Router/Scores/Pools.antt =====
-- The chosen candidates can take the task.
use mathlib.Core.List.{Memᴰ}
use mathlib.Core.List.Memᴰ.{head, tail}
use codex_shim.Prelude.{
  ℕ, ◌<◌, ◌≡◌, sym, ap, ◌∙◌, inl, inr, Bool, true, false, Option, none, some, List, [], ◌∷◌, Text,
  arith, text_eq_iff, Bool-cases,
}
use codex_shim.Router.{RouterCandidate, RouterConfig}
use codex_shim.Router.Scores.{
  Scored, Scores, score_of, scored, Pick, first_best, lower_cost, image_pool, has_slug,
  default_or_cheapest, nonempty_slug, fallback_slug,
}
use codex_shim.Router.Scores.Best.{
  Mem-keep_if, IsStrict, first_best-Mem, IsChosen, chosen_above, chosen_below, chosen_none,
}

pub some_inj {ℓ} : {A : Type ℓ} {a b : A} → some a ≡ some b → a ≡ b
some_inj = cc

Mem-has_slug :
    (c : RouterCandidate) (pool : List RouterCandidate) → Memᴰ c pool → has_slug c.slug pool ≡ true
unfolding has_slug
Mem-has_slug c [] m = elim m [ ]
Mem-has_slug c (d ∷ pool) (head e) = rw e (ground (arith, text_eq_iff d.slug d.slug))
Mem-has_slug c (d ∷ pool) (tail m) = ground (arith, Mem-has_slug c pool m)

lower_cost-IsStrict : IsStrict lower_cost
lower_cost-IsStrict = record { asym = λ a b e. ground arith; not_trans = λ a b c p q. ground arith }

cheapest-has_slug :
    (c : RouterCandidate) (pool : List RouterCandidate) (slug : Text)
    → (first_best lower_cost c pool).slug ≡ slug
    → has_slug slug (c ∷ pool) ≡ true
cheapest-has_slug c pool slug e = rw (← e) (
    Mem-has_slug (first_best lower_cost c pool) (c ∷ pool)
      (first_best-Mem lower_cost lower_cost-IsStrict c pool))

default_or_cheapest-has_slug :
    (default : Option Text) (pool : List RouterCandidate) (slug : Text)
    → default_or_cheapest default pool ≡ some slug
    → has_slug slug pool ≡ true
default_or_cheapest-has_slug default [] slug e = cc
default_or_cheapest-has_slug none (c ∷ pool) slug e = cheapest-has_slug c pool slug (some_inj e)
default_or_cheapest-has_slug (some d) (c ∷ pool) slug e =
    elim (Bool-cases (has_slug d (c ∷ pool))) [
      | inl known ↦ let same : d ≡ slug = some_inj (rw known at e) in rw (← same) known
      | inr unknown ↦ cheapest-has_slug c pool slug (some_inj (rw unknown at e))
    ]

pub fallback_slug-has_slug :
    (config : RouterConfig) (candidates : List RouterCandidate) (images : Bool) (slug : Text)
    → fallback_slug config candidates images ≡ some slug
    → has_slug slug (image_pool images candidates) ≡ true
unfolding fallback_slug
fallback_slug-has_slug config candidates images slug e =
    default_or_cheapest-has_slug (nonempty_slug config.default_slug) (image_pool images candidates)
      slug e

scored-Mem :
    (scores : Scores) (images : Bool) (candidates : List RouterCandidate) (x : Scored)
    → Memᴰ x (scored scores images candidates)
    → Memᴰ x.0 candidates × (x.1 ≡ score_of scores images x.0)
unfolding scored
scored-Mem scores images [] x m = elim m [ ]
scored-Mem scores images (c ∷ candidates) x (head e) =
    let same : x.0 ≡ c = ap (λ (y : Scored). y.0) e in
    (head same, ap (λ (y : Scored). y.1) e ∙ ap (score_of scores images) (sym same))
scored-Mem scores images (c ∷ candidates) x (tail m) =
    let (found, value) = scored-Mem scores images candidates x m in (tail found, value)

positive_supports :
    (scores : Scores) (c : RouterCandidate) → 0 < score_of scores true c → c.supports_images ≡ true
unfolding score_of
positive_supports scores c pos = ground arith

-- A candidate with a score above 0 can take the task.
positive-Mem :
    (scores : Scores) (images : Bool) (candidates : List RouterCandidate) (x : Scored)
    → Memᴰ x (scored scores images candidates)
    → 0 < x.1
    → Memᴰ x.0 (image_pool images candidates)
positive-Mem scores false candidates x m pos = (scored-Mem scores false candidates x m).0
positive-Mem scores true candidates x m pos =
    let (found, value) = scored-Mem scores true candidates x m in
    Mem-keep_if _ x.0 candidates found (positive_supports scores x.0 (omega arith))

pub pick-has_slug :
    (scores : Scores) (images : Bool) (candidates : List RouterCandidate) (threshold : ℕ)
    (pick : Pick) (slug : Text)
    → 0 < threshold
    → IsChosen threshold (scored scores images candidates) pick
    → pick.slug ≡ some slug
    → has_slug slug (image_pool images candidates) ≡ true
pick-has_slug scores images candidates threshold _ slug pos (chosen_above x found viable best) e =
    rw (← some_inj e) (
      Mem-has_slug x.0 _
        (positive-Mem scores images candidates x found (omega (arith, viable, pos))))
pick-has_slug scores images candidates threshold _ slug pos (chosen_below none_viable x m high best)
      e =
    rw (← some_inj e) (Mem-has_slug x.0 _ (positive-Mem scores images candidates x m high))
pick-has_slug scores images candidates threshold _ slug pos (chosen_none none_viable zeros) e = cc
