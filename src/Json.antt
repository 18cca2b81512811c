-- ===== src/Json.antt =====
-- JSON values as the program sees them after `json.loads`. Numbers are integers: a value with a
-- fraction in it is outside the model. An object's fields stand in their order, and a later write of a
-- name replaces the earlier one.
use codex_shim.Prelude.{
  ℕ, ◌≡◌, refl, Bool, true, false, Option, none, some, List, [], ◌∷◌, Text, text_eq, text_eq_iff,
  arith, if◌then◌else◌,
}

pub data ℤ : Type 0 where
  pos negsuc : ℕ → ℤ

mutual
  pub data Json : Type 0 where
    null : Json
    bool : Bool → Json
    int : ℤ → Json
    str : Text → Json
    arr : Items → Json
    obj : Fields → Json

  pub data Items : Type 0 where
    nil : Items
    cons : Json → Items → Items

  pub data Fields : Type 0 where
    end : Fields
    field : Text → Json → Fields → Fields

-- d.get(name)
unfoldable pub find : Text → Fields → Option Json
find k end = none
find k (field j v d) = if text_eq j k then some v else find k d

-- d[name] = v
unfoldable pub store : Text → Json → Fields → Fields
store k v end = field k v end
store k v (field j w d) = if text_eq j k then field k v d else field j w (store k v d)

-- d.pop(name, None)
unfoldable pub remove : Text → Fields → Fields
remove k end = end
remove k (field j v d) = let rest = remove k d in if text_eq j k then rest else field j v rest

pub find-store :
    (k j : Text) (v : Json) (d : Fields)
    → find j (store k v d) ≡ (if text_eq k j then some v else find j d)
unfolding find store
find-store k j v end = refl
find-store k j v (field i w d) =
    ground (arith, find-store k j v d, text_eq_iff i k, text_eq_iff i j, text_eq_iff k j)

pub find-remove :
    (k j : Text) (d : Fields) → find j (remove k d) ≡ (if text_eq k j then none else find j d)
unfolding find remove
find-remove k j end = ground arith
find-remove k j (field i w d) =
    ground (arith, find-remove k j d, text_eq_iff i k, text_eq_iff i j, text_eq_iff k j)

-- a list of the program as an array
unfoldable pub to_items : List Json → Items
to_items [] = nil
to_items (x ∷ xs) = cons x (to_items xs)

unfoldable pub of_items : Items → List Json
of_items nil = []
of_items (cons x xs) = x ∷ of_items xs

-- bool(value)
abbrev pub truthy : Json → Bool
truthy null = false
truthy (bool b) = b
truthy (int (pos ℕ.zero)) = false
truthy (int n) = true
truthy (str []) = false
truthy (str (c ∷ t)) = true
truthy (arr nil) = false
truthy (arr (cons x xs)) = true
truthy (obj end) = false
truthy (obj (field k v d)) = true
