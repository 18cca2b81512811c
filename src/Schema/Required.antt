-- ===== src/Schema/Required.antt =====
-- A tightened object schema requires its properties.
use mathlib.Core.Path.{subst}
use codex_shim.Prelude.{
  ◌≡◌, ◌≢◌, refl, sym, ap, ◌∙◌, inl, inr, Bool, true, false, not, ◌&&◌, Option, none, some, List,
  [], ◌∷◌, Text, codes, text_eq, text_eq_iff, mem, arith, ◌++◌, ◌||◌, All, All-append, Bool-cases,
  Option-cases, on_true, on_false,
}
use codex_shim.Json.{
  Json, null, bool, int, str, arr, obj, ℤ, Items, nil, cons, Fields, field, end, find, store,
  remove, find-store, of_items,
}
use codex_shim.Pipeline.Ids.{text_of}
use codex_shim.Schema.{
  names, has_name, text_list, select, required_keys, with_properties, with_empty_required,
  is_object_type, finish_object, tighten_fields, tighten_json_schema_required,
}

-- `required` lists the names of `properties`, in their order.
abbrev RequiresAll : Fields → Type 0
RequiresAll d =
    (q : Fields)
    → find (codes "properties") d ≡ some (obj q)
    → find (codes "required") d ≡ some (text_list (names q))

abbrev HasAll : Fields → List Text → Type 0
HasAll d keys = All (λ key. has_name key d ≡ true) keys

-- No key stands twice.
abbrev NoneTwice : List Text → Type 0
NoneTwice [] = Unit
NoneTwice (key ∷ keys) = (mem key keys ≡ false) × NoneTwice keys

remove_absent : (key : Text) (d : Fields) → mem key (names d) ≡ false → remove key d ≡ d
unfolding remove mem names
remove_absent key end e = refl
remove_absent key (field j v d) e =
    let other : text_eq j key ≡ false = ground (arith, e) in
    let rest = remove_absent key d (ground (arith, e)) in rw (other, rest) refl

names-select :
    (keys : List Text) (d : Fields) → HasAll d keys → NoneTwice keys → names (select keys d) ≡ keys
unfolding names select has_name
names-select [] d all once = refl
names-select (key ∷ keys) d (here, all) (new, once) = elim (Option-cases (find key d)) [
  | inl missing ↦ cc
  | inr (v, there) ↦
      let rest = names-select keys d all once in
      let absent : mem key (names (select keys d)) ≡ false = ap (mem key) rest ∙ new in
      rw (there, select, names)
        (ap (λ f. key ∷ names f) (remove_absent key (select keys d) absent)
          ∙ ap (λ t. key ∷ t) rest)
]

mem-append_last :
    (k key : Text) (keys : List Text) → mem k (keys ++ key ∷ []) ≡ (mem k keys || text_eq key k)
unfolding mem
mem-append_last k key [] = ground arith
mem-append_last k key (j ∷ keys) = ground (arith, mem-append_last k key keys)

append_last-NoneTwice :
    (key : Text) (keys : List Text)
    → mem key keys ≡ false
    → NoneTwice keys
    → NoneTwice (keys ++ key ∷ [])
unfolding mem
append_last-NoneTwice key [] new once = (refl, tt)
append_last-NoneTwice key (j ∷ keys) new (e, once) = (
  mem-append_last j key keys ∙ ground (arith, e, new, text_eq_iff key j, text_eq_iff j key),
  append_last-NoneTwice key keys (ground (arith, new)) once,
)

and_left : (a b : Bool) → (a && b) ≡ true → a ≡ true
and_left true b e = refl
and_left false b e = cc

and_right : (a b : Bool) → (a && not b) ≡ true → b ≡ false
and_right true b e = ground (arith, e)
and_right false b e = cc

some_inj : {v w : Json} → some v ≡ some w → v ≡ w
some_inj e = cc

obj_inj : {p q : Fields} → obj p ≡ obj q → p ≡ q
obj_inj e = cc

plain-RequiresAll :
    (tightened out : Fields)
    → find (codes "properties") out ≡ some (obj tightened)
    → RequiresAll (store (codes "required") (text_list (names tightened)) out)
unfolding text_eq
plain-RequiresAll tightened out here q e =
    let same : obj tightened ≡ obj q = some_inj (
      sym here
      ∙ sym (find-store (codes "required") (codes "properties") (text_list (names tightened)) out)
      ∙ e) in
    find-store (codes "required") (codes "required") (text_list (names tightened)) out
    ∙ ap (λ j. some (text_list (names j))) (obj_inj same)

module _ (py_str : Json → Text) where
  required_keys-HasAll :
      (existing : List Json) (d : Fields) (keys : List Text)
      → HasAll d keys
      → HasAll d (required_keys py_str existing d keys)
  unfolding required_keys
  required_keys-HasAll [] d keys all = all
  required_keys-HasAll (item ∷ existing) d keys all =
      let key = text_of py_str item in
      required_keys-HasAll existing d _ (elim (Bool-cases (has_name key d && not (mem key keys))) [
        | inl fresh ↦
            on_true (HasAll d) fresh _ _
              (All-append (λ k. has_name k d ≡ true) keys (key ∷ []) all (and_left _ _ fresh, tt))
        | inr seen ↦ on_false (HasAll d) seen _ _ all
      ])

  required_keys-NoneTwice :
      (existing : List Json) (d : Fields) (keys : List Text)
      → NoneTwice keys
      → NoneTwice (required_keys py_str existing d keys)
  unfolding required_keys
  required_keys-NoneTwice [] d keys once = once
  required_keys-NoneTwice (item ∷ existing) d keys once =
      let key = text_of py_str item in
      required_keys-NoneTwice existing d _
        (elim (Bool-cases (has_name key d && not (mem key keys))) [
          | inl fresh ↦
              on_true NoneTwice fresh _ _
                (append_last-NoneTwice key keys (and_right _ _ fresh) once)
          | inr seen ↦ on_false NoneTwice seen _ _ once
        ])

  with_properties-RequiresAll :
      (required : Option Json) (tightened out : Fields)
      → find (codes "properties") out ≡ some (obj tightened)
      → RequiresAll (with_properties py_str required tightened out)
  unfolding with_properties text_eq
  with_properties-RequiresAll (some (arr (cons item existing))) tightened out here q e =
      let keys = required_keys py_str (item ∷ of_items existing) tightened [] in
      let kept = select keys tightened in
      let with_kept = store (codes "properties") (obj kept) out in
      let same : obj kept ≡ obj q = some_inj (
        sym (find-store (codes "properties") (codes "properties") (obj kept) out)
        ∙ sym (find-store (codes "required") (codes "properties") (text_list keys) with_kept)
        ∙ e) in
      find-store (codes "required") (codes "required") (text_list keys) with_kept
      ∙ ap (λ k. some (text_list k))
          (sym (
              names-select keys tightened
                (required_keys-HasAll (item ∷ of_items existing) tightened [] tt)
                (required_keys-NoneTwice (item ∷ of_items existing) tightened [] tt))
            ∙ ap names (obj_inj same))
  with_properties-RequiresAll (some (arr nil)) tightened out here q e =
      plain-RequiresAll tightened out here q e
  with_properties-RequiresAll none tightened out here q e = plain-RequiresAll tightened out here q e
  with_properties-RequiresAll (some null) tightened out here q e =
      plain-RequiresAll tightened out here q e
  with_properties-RequiresAll (some (bool b)) tightened out here q e =
      plain-RequiresAll tightened out here q e
  with_properties-RequiresAll (some (int n)) tightened out here q e =
      plain-RequiresAll tightened out here q e
  with_properties-RequiresAll (some (str t)) tightened out here q e =
      plain-RequiresAll tightened out here q e
  with_properties-RequiresAll (some (obj d)) tightened out here q e =
      plain-RequiresAll tightened out here q e

empty_required-properties :
    (required : Option Json) (b : Bool) (out : Fields)
    → find (codes "properties") (with_empty_required required b out) ≡ find (codes "properties") out
unfolding text_eq
empty_required-properties none true out =
    find-store (codes "required") (codes "properties") (arr nil) out
empty_required-properties (some null) true out =
    find-store (codes "required") (codes "properties") (arr nil) out
empty_required-properties (some (bool c)) true out =
    find-store (codes "required") (codes "properties") (arr nil) out
empty_required-properties (some (int n)) true out =
    find-store (codes "required") (codes "properties") (arr nil) out
empty_required-properties (some (str t)) true out =
    find-store (codes "required") (codes "properties") (arr nil) out
empty_required-properties (some (obj d)) true out =
    find-store (codes "required") (codes "properties") (arr nil) out
empty_required-properties (some (arr items)) b out = refl
empty_required-properties none false out = refl
empty_required-properties (some null) false out = refl
empty_required-properties (some (bool c)) false out = refl
empty_required-properties (some (int n)) false out = refl
empty_required-properties (some (str t)) false out = refl
empty_required-properties (some (obj d)) false out = refl

-- Whether `properties` is an object.
abbrev NoObject : Option Json → Type 0
NoObject found = (q : Fields) → found ≢ some (obj q)

none_obj : {q : Fields} → ◌≡◌ {A = Option Json} none (some (obj q)) → ⊥
none_obj e = cc

null_obj : {q : Fields} → ◌≡◌ {A = Option Json} (some null) (some (obj q)) → ⊥
null_obj e = cc

bool_obj : {b : Bool} {q : Fields} → ◌≡◌ {A = Option Json} (some (bool b)) (some (obj q)) → ⊥
bool_obj e = cc

int_obj : {n : ℤ} {q : Fields} → ◌≡◌ {A = Option Json} (some (int n)) (some (obj q)) → ⊥
int_obj e = cc

str_obj : {t : Text} {q : Fields} → ◌≡◌ {A = Option Json} (some (str t)) (some (obj q)) → ⊥
str_obj e = cc

arr_obj : {items : Items} {q : Fields} → ◌≡◌ {A = Option Json} (some (arr items)) (some (obj q)) → ⊥
arr_obj e = cc

module _ (py_str : Json → Text) (lower : Text → Text) where
  no_properties-RequiresAll :
      (out : Fields)
      → NoObject (find (codes "properties") out)
      → RequiresAll (
          with_empty_required
            (find (codes "required") out)
            (is_object_type py_str lower (find (codes "type") out))
            out)
  no_properties-RequiresAll out no_object q e = absurd (
      no_object q (
        sym (
          empty_required-properties (find (codes "required") out)
            (is_object_type py_str lower (find (codes "type") out)) out)
        ∙ e))

  found-RequiresAll :
      (found : Option Json) (out : Fields)
      → found ≡ find (codes "properties") out
      → RequiresAll (elim found [
        | some (obj tightened) ↦ with_properties py_str (find (codes "required") out) tightened out
        | _ ↦
            with_empty_required
              (find (codes "required") out)
              (is_object_type py_str lower (find (codes "type") out))
              out
      ])
  found-RequiresAll (some (obj t)) out e =
      with_properties-RequiresAll py_str (find (codes "required") out) t out (sym e)
  found-RequiresAll none out e = no_properties-RequiresAll out (λ q h. none_obj (e ∙ h))
  found-RequiresAll (some null) out e = no_properties-RequiresAll out (λ q h. null_obj (e ∙ h))
  found-RequiresAll (some (bool b)) out e = no_properties-RequiresAll out (λ q h. bool_obj (e ∙ h))
  found-RequiresAll (some (int n)) out e = no_properties-RequiresAll out (λ q h. int_obj (e ∙ h))
  found-RequiresAll (some (str t)) out e = no_properties-RequiresAll out (λ q h. str_obj (e ∙ h))
  found-RequiresAll (some (arr items)) out e =
      no_properties-RequiresAll out (λ q h. arr_obj (e ∙ h))

-- In the tightened form of an object schema that has `properties`, `required` lists exactly their
-- names, in their order, whatever the schema required before.
pub tighten_json_schema_required-properties :
    (py_str : Json → Text) (lower : Text → Text) (schema result properties : Fields)
    → tighten_json_schema_required py_str lower (obj schema) ≡ obj result
    → find (codes "properties") result ≡ some (obj properties)
    → find (codes "required") result ≡ some (text_list (names properties))
unfolding tighten_json_schema_required finish_object
tighten_json_schema_required-properties py_str lower schema result properties e =
    subst RequiresAll (obj_inj e)
      (found-RequiresAll py_str lower _ (tighten_fields py_str lower schema) refl) properties
