-- ===== src/Router.antt =====
-- codex_shim/router.py: the choice of a model for each task. A cost, a score and the threshold are
-- whole numbers of millionths (the source uses floats, of which a cost could be negative).
pub mod Task
pub mod Scores
pub mod Auto
use codex_shim.Prelude.{
  ℕ, Bool, true, false, not, ◌&&◌, Option, none, some, List, [], ◌∷◌, Text, text_eq, mem, is_empty,
  keep_if, if◌then◌else◌,
}

pub record RouterCandidate : Type 0 where
  pub slug : Text
  pub cost : ℕ
  pub card : Text
  pub supports_images : Bool

-- The fields that decide on the route; `default_slug` is the source's `default`.
pub record RouterConfig : Type 0 where
  pub enabled : Bool
  pub slug : Text
  pub classifier : Option Text
  pub threshold : ℕ
  pub default_slug : Option Text
  pub cache : Bool
  pub candidates : List RouterCandidate

-- The flag is `router_disabled_via_env`.
abbrev pub effective_enabled : Bool → RouterConfig → Bool
effective_enabled disabled config = config.enabled && not disabled

unfoldable pub filter_available : RouterConfig → List Text → List RouterCandidate
unfolding mem text_eq
filter_available config available =
    keep_if (λ (c : RouterCandidate). mem c.slug available && not (text_eq c.slug config.slug))
      config.candidates

unfoldable pub router_is_active : Bool → Option RouterConfig → List Text → Bool
unfolding filter_available
router_is_active disabled none available = false
router_is_active disabled (some config) available =
    effective_enabled disabled config && not (is_empty (filter_available config available))
