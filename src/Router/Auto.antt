-- ===== src/Router/Auto.antt =====
-- `resolve_auto`: the cached choice of one candidate for a request. The classifier is a parameter,
-- as are Python's `hash` of a text, `str` and `float` of a value, and `json.loads`.
pub mod Soundness
use codex_shim.Prelude.{
  ℕ, Bool, true, false, ◌&&◌, Option, none, some, List, [], ◌∷◌, map, Text, Eq, ◌≡◌, refl, ◌↔◌,
  arith, nat_eq, leb, length, if◌then◌else◌,
}
use codex_shim.Prelude.Dict.{Dict, get, put}
use codex_shim.Json.{Json, ℤ}
use codex_shim.Router.{RouterCandidate, RouterConfig}
use codex_shim.Router.Task.{Signal, task_signal}
use codex_shim.Router.Scores.{
  Scores, parse_scores, Reason, cached_pick, no_classifier, classifier_error, single_candidate,
  no_candidates, empty_scores, Pick, pick_candidate, fallback_slug, nonempty_slug, has_slug,
}

abbrev pub cache_max : ℕ
cache_max = 256

-- _cache_key: "%s|%s" % (signal["has_images"], hash(signal["task"]))
pub record CacheKey : Type 0 where
  pub images : Bool
  pub hashed : ℕ

abbrev pub bool_eq : Bool → Bool → Bool
bool_eq true b = b
bool_eq false true = false
bool_eq false false = true

abbrev pub cache_key_eq : CacheKey → CacheKey → Bool
cache_key_eq a b = bool_eq a.images b.images && nat_eq a.hashed b.hashed

pub cache_key_eq_iff : (a b : CacheKey) → (cache_key_eq a b ≡ true) ↔ (a ≡ b)
cache_key_eq_iff a b = ground arith

instance abbrev pub CacheKey-Eq : Eq CacheKey
CacheKey-Eq = record { same = cache_key_eq; same_iff = cache_key_eq_iff }

abbrev pub RouteCache : Type 0
RouteCache = Dict CacheKey Text

-- What the router takes from its surroundings; the classifier's `none` is an exception.
pub record Surroundings : Type 0 where
  pub py_str : Json → Text
  pub hash : Text → ℕ
  pub loads : Text → Option Json
  pub float_of : Json → Option ℤ
  pub classify : Option (Signal → List RouterCandidate → Option Text)

pub record Route : Type 0 where
  pub slug : Option Text
  pub why : Reason

abbrev pub route : Option Text → Reason → Route
route slug why = record { slug = slug; why = why }

abbrev pub cache_key : (Text → ℕ) → Signal → CacheKey
cache_key hash signal = record { images = signal.images; hashed = hash signal.task }

-- cached, if config.cache, it is not empty, and it is the slug of a candidate
abbrev pub usable_cached : Bool → Option Text → List RouterCandidate → Option Text
usable_cached false cached candidates = none
usable_cached true cached candidates = elim (nonempty_slug cached) [
  | none ↦ none
  | some slug ↦ if has_slug slug candidates then some slug else none
]

-- if len(_cache) >= _CACHE_MAX: _cache.clear(); then _cache[key] = pick
unfoldable pub store_pick : CacheKey → Text → RouteCache → RouteCache
unfolding put
store_pick key slug cache =
    if leb cache_max (length cache) then put key slug [] else put key slug cache

abbrev pub store_if : Bool → CacheKey → Option Text → RouteCache → RouteCache
store_if false key pick cache = cache
store_if true key pick cache = elim (nonempty_slug pick) [
  | none ↦ cache
  | some slug ↦ store_pick key slug cache
]

-- if not pick: the fallback
abbrev pub or_fallback : Pick → Option Text → Route
or_fallback pick fallback = elim (nonempty_slug pick.slug) [
  | none ↦ route fallback empty_scores
  | some slug ↦ route (some slug) pick.why
]

module _ (env : Surroundings) (config : RouterConfig) (candidates : List RouterCandidate) where
  unfoldable pub decide : Signal → Text → RouteCache → RouteCache × Route
  unfolding parse_scores pick_candidate fallback_slug store_pick
  decide signal raw cache =
      let scores =
        parse_scores env.loads env.float_of raw
          (map (λ (c : RouterCandidate). c.slug) candidates) in
      let pick = pick_candidate scores candidates config.threshold signal.images in
      let result = or_fallback pick (fallback_slug config candidates signal.images) in
      (store_if config.cache (cache_key env.hash signal) result.slug cache, result)

  unfoldable pub classified : Signal → RouteCache → RouteCache × Route
  unfolding decide fallback_slug
  classified signal cache =
      let fallback = fallback_slug config candidates signal.images in
      elim env.classify [
        | none ↦ (cache, route fallback no_classifier)
        | some classify ↦ elim (classify signal candidates) [
          | none ↦ (cache, route fallback classifier_error)
          | some raw ↦ decide signal raw cache
        ]
      ]

  unfoldable pub resolve_many : Signal → RouteCache → RouteCache × Route
  unfolding classified get has_slug
  resolve_many signal cache =
      elim (usable_cached config.cache (get (cache_key env.hash signal) cache) candidates) [
        | some slug ↦ (cache, route (some slug) cached_pick)
        | none ↦ classified signal cache
      ]

unfoldable pub resolve_auto :
    Surroundings → RouterConfig → List RouterCandidate → Json → RouteCache → RouteCache × Route
unfolding resolve_many task_signal
resolve_auto env config [] body cache = (cache, route none no_candidates)
resolve_auto env config (c ∷ []) body cache = (cache, route (some c.slug) single_candidate)
resolve_auto env config (c ∷ d ∷ rest) body cache =
    resolve_many env config (c ∷ d ∷ rest) (task_signal env.py_str body) cache
