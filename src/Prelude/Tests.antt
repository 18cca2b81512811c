-- ===== src/Prelude/Tests.antt =====
-- Boolean tests on the native numbers, the conditional, and splits that keep their equation.
use Prim.Native.Nat.{ℕ, ◌≤◌, ◌<◌, compare, Ordering}
use mathlib.Core.Path.{◌≡◌, refl, sym, subst}
use mathlib.Core.Logic.{◌↔◌, ◌⊎◌, inl, inr}
use mathlib.Core.Bool.{Bool, true, false}
use mathlib.Core.Option.{Option, none, some}
use native.Mathlib.Omega.{arith}

abbrev pub ltb : ℕ → ℕ → Bool
ltb a b = elim (compare a b) [ Ordering.lt ↦ true | _ ↦ false ]

abbrev pub leb : ℕ → ℕ → Bool
leb a b = elim (compare a b) [ Ordering.gt ↦ false | _ ↦ true ]

abbrev pub nat_eq : ℕ → ℕ → Bool
nat_eq a b = elim (compare a b) [ Ordering.eq ↦ true | _ ↦ false ]

infix 1 if◌then◌else◌
abbrev pub if◌then◌else◌ {ℓ} : {A : Type ℓ} → Bool → A → A → A
if true then x else y = x
if false then x else y = y

pub nat_eq_iff : (a b : ℕ) → (nat_eq a b ≡ true) ↔ (a ≡ b)
nat_eq_iff a b = ground arith

pub leb→le : (a b : ℕ) → leb a b ≡ true → a ≤ b
leb→le a b h = ground arith

pub ltb→lt : (a b : ℕ) → ltb a b ≡ true → a < b
ltb→lt a b h = ground arith

pub Bool-cases : (b : Bool) → (b ≡ true) ⊎ (b ≡ false)
Bool-cases true = inl refl
Bool-cases false = inr refl

pub Option-cases {ℓ} : {A : Type ℓ} (o : Option A) → (o ≡ none) ⊎ ((a : A) × (o ≡ some a))
Option-cases none = inl refl
Option-cases (some a) = inr (a, refl)

-- The branch that a known test takes, and a property of it.
pub if_true {ℓ} : {A : Type ℓ} {b : Bool} → b ≡ true → (x y : A) → (if b then x else y) ≡ x
if_true {b = true} e x y = refl
if_true {b = false} e x y = cc

pub if_false {ℓ} : {A : Type ℓ} {b : Bool} → b ≡ false → (x y : A) → (if b then x else y) ≡ y
if_false {b = false} e x y = refl
if_false {b = true} e x y = cc

pub on_true {ℓ κ} :
    {A : Type ℓ} {b : Bool} (P : A → Type κ) → b ≡ true → (x y : A) → P x → P (if b then x else y)
on_true {b = true} P e x y p = p
on_true {b = false} P e x y p = cc

pub on_false {ℓ κ} :
    {A : Type ℓ} {b : Bool} (P : A → Type κ) → b ≡ false → (x y : A) → P y → P (if b then x else y)
on_false {b = false} P e x y p = p
on_false {b = true} P e x y p = cc

-- What holds of both branches.
pub on_both {ℓ κ} :
    {A : Type ℓ} (P : A → Type κ) (b : Bool) (x y : A) → P x → P y → P (if b then x else y)
on_both P true x y p q = p
on_both P false x y p q = q

some_inj {ℓ} : {A : Type ℓ} {a b : A} → ◌≡◌ {A = Option A} (some a) (some b) → a ≡ b
some_inj e = cc

pub on_none {ℓ κ} :
    {A : Type ℓ} {B : Type ℓ} {o : Option A} (P : B → Type κ)
    → o ≡ none
    → (x : B) (f : A → B) → P x
    → P (elim o [ none ↦ x | some a ↦ f a ])
on_none {o = none} P e x f p = p
on_none {o = some a} P e x f p = cc

pub on_some {ℓ κ} :
    {A : Type ℓ} {B : Type ℓ} {o : Option A} (P : B → Type κ) (a : A)
    → o ≡ some a
    → (x : B) (f : A → B) → P (f a)
    → P (elim o [ none ↦ x | some b ↦ f b ])
on_some {o = none} P a e x f p = cc
on_some {o = some b} P a e x f p = subst (λ c. P (f c)) (some_inj (sym e)) p
