-- ===== src/Errors.antt =====
-- codex_shim/net/errors.py: what a body that reports an upstream error says.
pub mod Upstream
pub mod Events
use codex_shim.Prelude.{
  ℕ, ◌+◌, Bool, true, false, not, ◌&&◌, ◌||◌, Option, none, some, List, [], ◌∷◌, ◌++◌, map, Text,
  codes, text_eq, nat_eq, ltb, mem, any_of, strip, is_empty, if◌then◌else◌,
}
use codex_shim.Json.{
  Json, null, bool, int, str, arr, obj, ℤ, pos, negsuc, Fields, field, end, find, truthy,
}
use codex_shim.Pipeline.Ids.{text_of}
use codex_shim.Retry.Policy.{Kind, no_throttle, rate_limit, quota, transport}

-- What the module takes from its surroundings: `json.loads` (`none` is a `JSONDecodeError`),
-- `json.dumps`, Python's `str` and `str.lower`.
pub record Python : Type 0 where
  pub loads : Text → Option Json
  pub dumps : Json → Text
  pub py_str : Json → Text
  pub lower : Text → Text

abbrev pub fields_of : Option Json → Fields
fields_of (some (obj d)) = d
fields_of _ = end

-- d.get(name), with None for a missing name
unfoldable pub value_of : Text → Fields → Json
unfolding find
value_of name d = elim (find name d) [ none ↦ null | some v ↦ v ]
