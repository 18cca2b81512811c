-- ===== src/Prelude/PyText.antt =====
-- Python's operations on `str`, over code points.
use codex_shim.Prelude.Tests.{nat_eq, leb, if◌then◌else◌}
use codex_shim.Prelude.Equality.{Text, text_eq}
use Prim.Native.Nat.{ℕ}
use mathlib.Core.Bool.{Bool, true, false, ◌&&◌, ◌||◌}
use mathlib.Core.Option.{Option, none, some}
use mathlib.Core.List.{List, [], ◌∷◌}

abbrev pub is_empty {ℓ} : {A : Type ℓ} → List A → Bool
is_empty [] = true
is_empty (x ∷ xs) = false

-- `c in set`
unfoldable pub mem : Text → List Text → Bool
mem k [] = false
mem k (x ∷ xs) = text_eq x k || mem k xs

-- str.isspace of one character
abbrev pub is_space : ℕ → Bool
is_space c =
    leb 9 c && leb c 13
    || leb 28 c && leb c 32
    || nat_eq c 133
    || nat_eq c 160
    || nat_eq c 5760
    || leb 8192 c && leb c 8202
    || nat_eq c 8232
    || nat_eq c 8233
    || nat_eq c 8239
    || nat_eq c 8287
    || nat_eq c 12288

unfoldable pub lstrip : (ℕ → Bool) → Text → Text
lstrip p [] = []
lstrip p (c ∷ t) = let rest = lstrip p t in if p c then rest else c ∷ t

unfoldable pub rstrip : (ℕ → Bool) → Text → Text
rstrip p [] = []
rstrip p (c ∷ t) = let rest = rstrip p t in if is_empty rest && p c then [] else c ∷ rest

-- value.strip()
unfoldable pub strip : Text → Text
unfolding lstrip rstrip
strip t = rstrip is_space (lstrip is_space t)

-- What follows a prefix: `none` if the text does not start with it.
unfoldable pub after_prefix : Text → Text → Option Text
after_prefix [] t = some t
after_prefix (p ∷ ps) [] = none
after_prefix (p ∷ ps) (c ∷ t) = if nat_eq p c then after_prefix ps t else none

-- value or default
abbrev pub or_text : Text → Text → Text
or_text [] default = default
or_text (c ∷ t) default = c ∷ t
