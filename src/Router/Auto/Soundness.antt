-- ===== src/Router/Auto/Soundness.antt =====
-- What `resolve_auto` promises of its answers and of its cache.
use codex_shim.Prelude.{
  ◌+◌, ◌≤◌, ◌<◌, ◌≡◌, refl, sym, ◌∙◌, ◌⊎◌, inl, inr, Bool, true, false, Option, none, some, List,
  [], ◌∷◌, Text, arith, leb, length, Bool-cases, Option-cases, map,
}
use codex_shim.Prelude.Dict.{get, put, get-put}
use codex_shim.Json.{Json}
use codex_shim.Router.{RouterCandidate, RouterConfig}
use codex_shim.Router.Task.{Signal, task_signal, has_images}
use codex_shim.Router.Scores.{
  Scores, pick_candidate, image_pool, has_slug, nonempty_slug, fallback_slug, parse_scores, Reason,
  empty_scores, no_classifier, classifier_error,
}
use codex_shim.Router.Scores.Best.{pick_candidate-scored}
use codex_shim.Router.Auto.{
  CacheKey, CacheKey-Eq, cache_key_eq, cache_key_eq_iff, RouteCache, Surroundings, Route, route,
  cache_key, usable_cached, store_pick, store_if, or_fallback, decide, classified, resolve_many,
  resolve_auto, cache_max,
}
use codex_shim.Router.Scores.Pools.{some_inj, fallback_slug-has_slug, pick-has_slug}

-- The cache holds at most 256 entries, and what it holds under a key with images takes images, if it
-- is still the slug of a candidate.
pub record IsSound (candidates : List RouterCandidate) (cache : RouteCache) : Type 0 where
  pub bounded : length cache ≤ cache_max
  pub routable :
      (key : CacheKey) (slug : Text)
      → get key cache ≡ some slug
      → has_slug slug candidates ≡ true
      → has_slug slug (image_pool key.images candidates) ≡ true

-- No slug is chosen, or that of a candidate, which takes images if the task has some.
abbrev pub IsRoutable : List RouterCandidate → Bool → Route → Type 0
IsRoutable candidates images r =
    (r.slug ≡ none)
    ⊎ ((slug : Text) × (r.slug ≡ some slug) × (has_slug slug (image_pool images candidates) ≡ true))

length-put-le :
    (key : CacheKey) (slug : Text) (cache : RouteCache)
    → length (put key slug cache) ≤ length cache + 1
unfolding put
length-put-le key slug [] = omega arith
length-put-le key slug ((j, t) ∷ cache) = ground (arith, length-put-le key slug cache)

abbrev AllRoutable : List RouterCandidate → RouteCache → Type 0
AllRoutable candidates cache =
    (key : CacheKey) (slug : Text)
    → get key cache ≡ some slug
    → has_slug slug candidates ≡ true
    → has_slug slug (image_pool key.images candidates) ≡ true

put-AllRoutable :
    (candidates : List RouterCandidate) (key : CacheKey) (slug : Text) (cache : RouteCache)
    → AllRoutable candidates cache
    → has_slug slug (image_pool key.images candidates) ≡ true
    → AllRoutable candidates (put key slug cache)
put-AllRoutable candidates key slug cache all ok key' slug' e there =
    elim (Bool-cases (cache_key_eq key key')) [
      | inl same ↦
          let equal : key ≡ key' = (cache_key_eq_iff key key').0 same in
          let stored : some slug ≡ some slug' = rw (get-put key key' slug cache, same) at e in
          rw (← some_inj stored, ← equal) ok
      | inr other ↦ all key' slug' (rw (get-put key key' slug cache, other) at e) there
    ]

empty-AllRoutable : (candidates : List RouterCandidate) → AllRoutable candidates []
unfolding get
empty-AllRoutable candidates key slug e there = cc

store_pick-IsSound :
    (candidates : List RouterCandidate) (key : CacheKey) (slug : Text) (cache : RouteCache)
    → IsSound candidates cache
    → has_slug slug (image_pool key.images candidates) ≡ true
    → IsSound candidates (store_pick key slug cache)
unfolding store_pick
store_pick-IsSound candidates key slug cache sound ok =
    elim (Bool-cases (leb cache_max (length cache))) [
      | inl full ↦ rw full (record {
        bounded = omega (arith, length-put-le key slug []);
        routable = put-AllRoutable candidates key slug [] (empty-AllRoutable candidates) ok;
      })
      | inr room ↦ rw room (record {
        bounded = ground (arith, length-put-le key slug cache);
        routable = put-AllRoutable candidates key slug cache sound.routable ok;
      })
    ]

nonempty_cases :
    (o : Option Text)
    → (nonempty_slug o ≡ none) ⊎ ((slug : Text) × (nonempty_slug o ≡ some slug) × (o ≡ some slug))
nonempty_cases none = inl refl
nonempty_cases (some []) = inl refl
nonempty_cases (some (c ∷ t)) = inr (c ∷ t, refl, refl)

IsRoutable-some :
    (candidates : List RouterCandidate) (images : Bool) (r : Route) (slug : Text)
    → IsRoutable candidates images r
    → r.slug ≡ some slug
    → has_slug slug (image_pool images candidates) ≡ true
IsRoutable-some candidates images r slug (inl nothing) e = cc
IsRoutable-some candidates images r slug (inr (t, same, ok)) e =
    let equal : t ≡ slug = some_inj (sym same ∙ e) in rw (← equal) ok

store_if-IsSound :
    (b : Bool) (candidates : List RouterCandidate) (key : CacheKey) (r : Route) (cache : RouteCache)
    → IsSound candidates cache
    → IsRoutable candidates key.images r
    → IsSound candidates (store_if b key r.slug cache)
store_if-IsSound false candidates key r cache sound ok = sound
store_if-IsSound true candidates key r cache sound ok = elim (nonempty_cases r.slug) [
  | inl nothing ↦ rw (nothing, store_if) sound
  | inr (slug, named, same) ↦
      rw (named, store_if)
        (store_pick-IsSound candidates key slug cache sound
          (IsRoutable-some candidates key.images r slug ok same))
]

fallback-IsRoutable :
    (config : RouterConfig) (candidates : List RouterCandidate) (images : Bool) (why : Reason)
    → IsRoutable candidates images (route (fallback_slug config candidates images) why)
fallback-IsRoutable config candidates images why =
    elim (Option-cases (fallback_slug config candidates images)) [
      | inl nothing ↦ inl nothing
      | inr (slug, e) ↦ inr (slug, e, fallback_slug-has_slug config candidates images slug e)
    ]

usable_cached-get :
    (b : Bool) (cached : Option Text) (candidates : List RouterCandidate) (slug : Text)
    → usable_cached b cached candidates ≡ some slug
    → (cached ≡ some slug) × (has_slug slug candidates ≡ true)
usable_cached-get false cached candidates slug e = cc
usable_cached-get true none candidates slug e = cc
usable_cached-get true (some []) candidates slug e = cc
usable_cached-get true (some (c ∷ t)) candidates slug e =
    elim (Bool-cases (has_slug (c ∷ t) candidates)) [
      | inl known ↦
          let same : some (c ∷ t) ≡ some slug = rw known at e in (same, rw (← some_inj same) known)
      | inr unknown ↦ let impossible : none ≡ some slug = rw unknown at e in cc
    ]

-- The cache stays sound, and the answer is routable.
abbrev pub Answers : List RouterCandidate → Bool → RouteCache × Route → Type 0
Answers candidates images (cache, r) = IsSound candidates cache × IsRoutable candidates images r

module _ (env : Surroundings) (config : RouterConfig) (candidates : List RouterCandidate)
    (bar : 0 < config.threshold) where
  or_fallback-IsRoutable :
      (scores : Scores) (images : Bool)
      → IsRoutable candidates images (
          or_fallback
            (pick_candidate scores candidates config.threshold images)
            (fallback_slug config candidates images))
  or_fallback-IsRoutable scores images =
      let pick = pick_candidate scores candidates config.threshold images in
      elim (nonempty_cases pick.slug) [
        | inl nothing ↦
            rw (nothing, or_fallback) (fallback-IsRoutable config candidates images empty_scores)
        | inr (slug, named, same) ↦
            rw (named, or_fallback)
              (inr (
                slug,
                refl,
                pick-has_slug scores images candidates config.threshold pick slug bar
                    (pick_candidate-scored scores candidates config.threshold images) same,
              ))
      ]

  decide-Answers :
      (signal : Signal) (raw : Text) (cache : RouteCache)
      → IsSound candidates cache
      → Answers candidates signal.images (decide env config candidates signal raw cache)
  unfolding decide
  decide-Answers signal raw cache sound =
      let scores =
        parse_scores env.loads env.float_of raw
          (map (λ (c : RouterCandidate). c.slug) candidates) in
      let result =
        or_fallback (pick_candidate scores candidates config.threshold signal.images)
          (fallback_slug config candidates signal.images) in
      let ok = or_fallback-IsRoutable scores signal.images in
      (
        store_if-IsSound config.cache candidates (cache_key env.hash signal) result cache sound ok,
        ok,
      )

  classified-Answers :
      (signal : Signal) (cache : RouteCache)
      → IsSound candidates cache
      → Answers candidates signal.images (classified env config candidates signal cache)
  unfolding classified
  classified-Answers signal cache sound = elim (Option-cases env.classify) [
    | inl nothing ↦
        rw (nothing, classified)
          (sound, fallback-IsRoutable config candidates signal.images no_classifier)
    | inr (classify, e) ↦ elim (Option-cases (classify signal candidates)) [
      | inl failed ↦
          rw (e, classified, failed)
            (sound, fallback-IsRoutable config candidates signal.images classifier_error)
      | inr (raw, replied) ↦ rw (e, classified, replied) (decide-Answers signal raw cache sound)
    ]
  ]

  resolve_many-Answers :
      (signal : Signal) (cache : RouteCache)
      → IsSound candidates cache
      → Answers candidates signal.images (resolve_many env config candidates signal cache)
  unfolding resolve_many
  resolve_many-Answers signal cache sound =
      let key = cache_key env.hash signal in
      elim (Option-cases (usable_cached config.cache (get key cache) candidates)) [
        | inl nothing ↦ rw (nothing, resolve_many) (classified-Answers signal cache sound)
        | inr (slug, hit) ↦
            rw (hit, resolve_many)
              (
                sound,
                let (at, there) =
                      usable_cached-get config.cache (get key cache) candidates slug hit in
                    inr (slug, refl, sound.routable key slug at there),
              )
      ]

-- With at least two candidates and a threshold above 0: a cache of at most 256 picks, of which each
-- that was made for a task with images and is still a candidate takes images, stays one, whatever other
-- slugs it holds; and what is answered is nothing or the slug of a candidate, of one that takes images if
-- the task has some, whatever the classifier replies.
pub resolve_auto-Answers :
    (env : Surroundings) (config : RouterConfig) (c d : RouterCandidate)
    (rest : List RouterCandidate) (body : Json) (cache : RouteCache)
    → 0 < config.threshold
    → IsSound (c ∷ d ∷ rest) cache
    → Answers (c ∷ d ∷ rest) (has_images body) (resolve_auto env config (c ∷ d ∷ rest) body cache)
unfolding resolve_auto task_signal
resolve_auto-Answers env config c d rest body cache bar sound =
    resolve_many-Answers env config (c ∷ d ∷ rest) bar (task_signal env.py_str body) cache sound
