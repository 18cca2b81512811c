-- ===== src/HostGuard.antt =====
-- codex_shim/hostguard.py: which Host headers are admitted. Python's `str.lower` is a parameter, and
-- the variable CODEX_SHIM_ALLOWED_HOSTS an argument.
pub mod Names
pub mod Admission
use codex_shim.Prelude.{
  ℕ, suc, ◌+◌, Bool, true, false, not, ◌&&◌, Option, none, some, List, [], ◌∷◌, ◌++◌, map, Text,
  codes, text_eq, nat_eq, mem, strip, is_empty, if◌then◌else◌,
}

abbrev pub default_allowed_hosts : List Text
default_allowed_hosts = codes "127.0.0.1" ∷ codes "localhost" ∷ codes "::1" ∷ []

abbrev pub wildcard_binds : List Text
wildcard_binds = [] ∷ codes "0.0.0.0" ∷ codes "::" ∷ []

-- the text up to the first occurrence of a character, if there is one
unfoldable pub before_char : ℕ → Text → Option Text
before_char k [] = none
before_char k (c ∷ t) =
    let rest : Option Text = elim (before_char k t) [ none ↦ none | some s ↦ some (c ∷ s) ] in
    if nat_eq c k then some [] else rest

-- value.count(":")
unfoldable pub count_colons : Text → ℕ
count_colons [] = 0
count_colons (c ∷ t) = let rest = count_colons t in if nat_eq c 58 then suc rest else rest

abbrev pub or_whole : Option Text → Text → Text
or_whole none value = value
or_whole (some part) value = part

-- a value that does not begin with "["; with one colon the last is the first
unfoldable pub without_port : Text → Text
unfolding before_char count_colons
without_port value =
    if nat_eq (count_colons value) 1 then or_whole (before_char 58 value) value else value

-- host_only, of the value without the spaces around it
unfoldable pub host_of : Text → Text
unfolding before_char without_port
host_of [] = []
host_of (c ∷ value) =
    if nat_eq c 91 then or_whole (before_char 93 value) (c ∷ value) else without_port (c ∷ value)

unfoldable pub host_only : Text → Text
unfolding strip host_of
host_only host_header = host_of (strip host_header)

-- text.split(",")
abbrev pub add_char : ℕ → List Text → List Text
add_char c [] = (c ∷ []) ∷ []
add_char c (part ∷ parts) = (c ∷ part) ∷ parts

unfoldable pub split_commas : Text → List Text
split_commas [] = [] ∷ []
split_commas (c ∷ t) =
    let parts = split_commas t in if nat_eq c 44 then [] ∷ parts else add_char c parts

module _ (lower : Text → Text) where
  -- if part: allowed.add(part)
  unfoldable pub listed_hosts : List Text → List Text
  unfolding strip
  listed_hosts [] = []
  listed_hosts (part ∷ parts) =
      let host = lower (strip part) in
      let rest = listed_hosts parts in if is_empty host then rest else host ∷ rest

  unfoldable pub bind_hosts : Text → List Text
  unfolding strip mem text_eq
  bind_hosts bind_host =
      let bind = lower (strip bind_host) in if mem bind wildcard_binds then [] else bind ∷ []

  unfoldable pub build_allowed_hosts : (bind_host allowed_variable : Text) → List Text
  unfolding listed_hosts bind_hosts split_commas
  build_allowed_hosts bind_host allowed_variable =
      map lower default_allowed_hosts
      ++ (bind_hosts bind_host ++ listed_hosts (split_commas allowed_variable))

  -- the middleware: whether the handler is called, else `HTTPForbidden` is raised
  unfoldable pub is_admitted : List Text → Text → Bool
  unfolding host_only mem text_eq
  is_admitted allowed_hosts host_header =
      mem (lower (host_only host_header)) (map lower allowed_hosts)
