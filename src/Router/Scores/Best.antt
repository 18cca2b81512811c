-- ===== src/Router/Scores/Best.antt =====
-- `pick_candidate` takes the best of the candidates.
use mathlib.Core.Path.{subst}
use mathlib.Core.List.{Memᴰ}
use mathlib.Core.List.Memᴰ.{head, tail}
use codex_shim.Prelude.{
  ℕ, zero, suc, ◌≤◌, ◌<◌, ◌≡◌, refl, sym, ap, inl, inr, Bool, true, false, some, List, [], ◌∷◌,
  arith, ltb, nat_eq, ◌&&◌, ◌||◌, ◌⊎◌, Bool-cases, All, keep_if, if◌then◌else◌, map, Text-Eq,
}
use codex_shim.Prelude.Dict.{get}
use codex_shim.Router.{RouterCandidate}
use codex_shim.Router.Scores.{
  Scored, Scores, score_of, or_zero, scored, first_best, cheaper, higher, Pick, no_pick, pick_best,
  pick_above, is_viable, pick_candidate, cheapest_above, below_bar,
}

-- What `min` and `max` need of a strict comparison.
pub record IsStrict {ℓ} {A : Type ℓ} (better : A → A → Bool) : Type ℓ where
  pub asym : (a b : A) → better a b ≡ true → better b a ≡ false
  pub not_trans : (a b c : A) → better a b ≡ false → better b c ≡ false → better a c ≡ false

module _ {ℓ} {A : Type ℓ} (better : A → A → Bool) (strict : IsStrict better) where
  irrefl : (a : A) → better a a ≡ false
  irrefl a = elim (Bool-cases (better a a)) [ inl e ↦ strict.asym a a e | inr e ↦ e ]

  first_best_step :
      (x y : A) (ys : List A) (b : Bool)
      → better y x ≡ b
      → first_best better x (y ∷ ys) ≡ first_best better (if b then y else x) ys
  unfolding first_best
  first_best_step x y ys b e = rw e refl

  first_best-All :
      (x : A) (ys : List A) → All (λ y. better y (first_best better x ys) ≡ false) (x ∷ ys)
  first_best-All x [] = unfold first_best in (irrefl x, tt)
  first_best-All x (y ∷ ys) = elim (Bool-cases (better y x)) [
    | inl e ↦
        let (new, rest) = first_best-All y ys in
        subst (λ r. All (λ z. better z r ≡ false) (x ∷ y ∷ ys))
          (sym (first_best_step x y ys true e))
          (strict.not_trans x y _ (strict.asym y x e) new, (new, rest))
    | inr e ↦
        let (old, rest) = first_best-All x ys in
        subst (λ r. All (λ z. better z r ≡ false) (x ∷ y ∷ ys))
          (sym (first_best_step x y ys false e)) (old, (strict.not_trans y x _ e old, rest))
  ]

  skip_second : {a : A} (x y : A) {ys : List A} → Memᴰ a (x ∷ ys) → Memᴰ a (x ∷ y ∷ ys)
  skip_second x y (head e) = head e
  skip_second x y (tail m) = tail (tail m)

  pub first_best-Mem : (x : A) (ys : List A) → Memᴰ (first_best better x ys) (x ∷ ys)
  unfolding first_best
  first_best-Mem x [] = head refl
  first_best-Mem x (y ∷ ys) = elim (Bool-cases (better y x)) [
    | inl e ↦ rw e (tail (first_best-Mem y ys))
    | inr e ↦ rw e (skip_second x y (first_best-Mem x ys))
  ]

cheaper-IsStrict : IsStrict cheaper
cheaper-IsStrict = record { asym = λ a b e. ground arith; not_trans = λ a b c p q. ground arith }

higher-IsStrict : IsStrict higher
higher-IsStrict = record { asym = λ a b e. ground arith; not_trans = λ a b c p q. ground arith }

-- The first costs less than the second, or as much with a score that is not lower.
abbrev pub IsNoDearer : Scored → Scored → Type 0
IsNoDearer (c, s) (d, t) = (c.cost < d.cost) ⊎ ((c.cost ≡ d.cost) × (t ≤ s))

module _ {ℓ} {A : Type ℓ} (p : A → Bool) (x : A) where
  pub Mem-keep_if : (xs : List A) → Memᴰ x xs → p x ≡ true → Memᴰ x (keep_if p xs)
  Mem-keep_if [] m e = elim m [ ]
  Mem-keep_if (y ∷ xs) (head same) e = rw (← same) (rw e (head refl))
  Mem-keep_if (y ∷ xs) (tail m) e = elim (Bool-cases (p y)) [
    | inl kept ↦ rw kept (tail (Mem-keep_if xs m e))
    | inr dropped ↦ rw dropped (Mem-keep_if xs m e)
  ]

  first_or :
      (b : Bool) {y : A} {xs : List A}
      → b ≡ true
      → Memᴰ x (y ∷ xs)
      → ((x ≡ y) × (b ≡ true)) ⊎ Memᴰ x xs
  first_or b e (head same) = inl (same, e)
  first_or b e (tail m) = inr m

  keep_if_cases :
      (y : A) (xs : List A)
      → Memᴰ x (keep_if p (y ∷ xs))
      → ((x ≡ y) × (p y ≡ true)) ⊎ Memᴰ x (keep_if p xs)
  keep_if_cases y xs m = elim (Bool-cases (p y)) [
    | inl kept ↦ first_or (p y) kept (rw kept at m)
    | inr dropped ↦ inr (rw dropped at m)
  ]

  pub keep_if-Mem : (xs : List A) → Memᴰ x (keep_if p xs) → Memᴰ x xs × (p x ≡ true)
  keep_if-Mem [] m = elim m [ ]
  keep_if-Mem (y ∷ xs) m = elim (keep_if_cases y xs m) [
    | inl (same, kept) ↦ (head same, rw same kept)
    | inr later ↦ let (found, kept) = keep_if-Mem xs later in (tail found, kept)
  ]

-- The choice, given each candidate's score: one at or above the threshold than which no other of them is
-- cheaper, or as cheap with a higher score; if there are none, one with a score above 0 than which no other
-- is higher; nothing, if none is at the threshold and all scores are 0.
pub data IsChosen (threshold : ℕ) (all : List Scored) : Pick → Type 0 where
  chosen_above :
      (x : Scored)
      → Memᴰ x all
      → threshold ≤ x.1
      → ((y : Scored) → Memᴰ y all → threshold ≤ y.1 → IsNoDearer x y)
      → IsChosen threshold all (record { slug = some x.0.slug; score = x.1; why = cheapest_above })
  chosen_below :
      ((y : Scored) → Memᴰ y all → y.1 < threshold)
      → (x : Scored) → Memᴰ x all
      → 0 < x.1
      → All (λ (y : Scored). y.1 ≤ x.1) all
      → IsChosen threshold all (record { slug = some x.0.slug; score = x.1; why = below_bar })
  chosen_none :
      ((y : Scored) → Memᴰ y all → y.1 < threshold)
      → All (λ (y : Scored). y.1 ≡ 0) all
      → IsChosen threshold all no_pick

-- The choice, with those at or above the threshold as a list.
data IsPicked (viable all : List Scored) : Pick → Type 0 where
  picked_above :
      (x : Scored)
      → Memᴰ x viable
      → All (λ (y : Scored). IsNoDearer x y) viable
      → IsPicked viable all (record { slug = some x.0.slug; score = x.1; why = cheapest_above })
  picked_below :
      viable ≡ []
      → (x : Scored) → Memᴰ x all
      → 0 < x.1
      → All (λ (y : Scored). y.1 ≤ x.1) all
      → IsPicked viable all (record { slug = some x.0.slug; score = x.1; why = below_bar })
  picked_none : viable ≡ [] → All (λ (y : Scored). y.1 ≡ 0) all → IsPicked viable all no_pick

not_higher :
    (x : Scored) (ys : List Scored)
    → All (λ y. higher y x ≡ false) ys
    → All (λ (y : Scored). y.1 ≤ x.1) ys
not_higher x [] h = tt
not_higher x (y ∷ ys) (p, h) = (ground arith, not_higher x ys h)

zeroes :
    (n : ℕ)
    → n ≡ 0
    → (ys : List Scored) → All (λ (y : Scored). y.1 ≤ n) ys
    → All (λ (y : Scored). y.1 ≡ 0) ys
zeroes n e [] h = tt
zeroes n e (y ∷ ys) (p, h) = (omega arith, zeroes n e ys h)

pick_best-IsPicked :
    (x : Scored) (all : List Scored)
    → Memᴰ x all
    → All (λ (y : Scored). y.1 ≤ x.1) all
    → IsPicked [] all (pick_best x)
pick_best-IsPicked (c, zero) all m h = picked_none refl (zeroes zero refl all h)
pick_best-IsPicked (c, suc s) all m h =
    let positive : ltb 0 (suc s) ≡ true = ground arith in
    rw positive (picked_below refl (c, suc s) m (omega arith) h)

cost_score :
    (a b s t : ℕ) → (ltb b a || nat_eq b a && ltb s t) ≡ false → (a < b) ⊎ ((a ≡ b) × (t ≤ s))
cost_score a b s t h = grind arith

no_dearer :
    (x : Scored) (ys : List Scored)
    → All (λ y. cheaper y x ≡ false) ys
    → All (λ (y : Scored). IsNoDearer x y) ys
no_dearer x [] h = tt
no_dearer (c, s) ((d, t) ∷ ys) (h, hs) = (cost_score c.cost d.cost s t h, no_dearer (c, s) ys hs)

pick_above-IsPicked : (viable all : List Scored) → IsPicked viable all (pick_above viable all)
pick_above-IsPicked (x ∷ viable) all =
    picked_above (first_best cheaper x viable) (first_best-Mem cheaper cheaper-IsStrict x viable) (
      no_dearer (first_best cheaper x viable) (x ∷ viable)
        (first_best-All cheaper cheaper-IsStrict x viable))
pick_above-IsPicked [] [] = picked_none refl tt
pick_above-IsPicked [] (x ∷ all) =
    pick_best-IsPicked (first_best higher x all) (x ∷ all)
      (first_best-Mem higher higher-IsStrict x all)
      (not_higher (first_best higher x all) (x ∷ all) (first_best-All higher higher-IsStrict x all))

All-Mem : (P : Scored → Type 0) (xs : List Scored) (y : Scored) → All P xs → Memᴰ y xs → P y
All-Mem P [] y all m = elim m [ ]
All-Mem P (x ∷ xs) y (p, all) (head e) = subst P (sym e) p
All-Mem P (x ∷ xs) y (p, all) (tail m) = All-Mem P xs y all m

below :
    (threshold : ℕ) (all : List Scored)
    → keep_if (is_viable threshold) all ≡ []
    → (y : Scored) → Memᴰ y all
    → y.1 < threshold
below threshold all e y m = elim (Bool-cases (is_viable threshold y)) [
  | inl viable ↦
      absurd (elim (subst (Memᴰ y) e (Mem-keep_if (is_viable threshold) y all m viable)) [ ])
  | inr not_viable ↦ ground (arith, not_viable)
]

IsPicked-IsChosen :
    (threshold : ℕ) (all : List Scored) (pick : Pick)
    → IsPicked (keep_if (is_viable threshold) all) all pick
    → IsChosen threshold all pick
IsPicked-IsChosen threshold all _ (picked_above x m best) =
    let (found, viable) = keep_if-Mem (is_viable threshold) x all m in
    chosen_above x found (ground (arith, viable)) (λ y at high.
      All-Mem (λ (y : Scored). IsNoDearer x y) _ y best
        (Mem-keep_if (is_viable threshold) y all at (ground (arith, high))))
IsPicked-IsChosen threshold all _ (picked_below e x m high best) =
    chosen_below (below threshold all e) x m high best
IsPicked-IsChosen threshold all _ (picked_none e zeros) = chosen_none (below threshold all e) zeros

pub pick_candidate-scored :
    (scores : Scores) (candidates : List RouterCandidate) (threshold : ℕ) (has_image_task : Bool)
    → IsChosen threshold
        (scored scores has_image_task candidates)
        (pick_candidate scores candidates threshold has_image_task)
unfolding pick_candidate
pick_candidate-scored scores candidates threshold has_image_task =
    let all = scored scores has_image_task candidates in
    IsPicked-IsChosen threshold all _ (pick_above-IsPicked (keep_if (is_viable threshold) all) all)

-- A candidate's score: 0 without images in a task with images, else what the classifier gave it.
abbrev pub Rates : Scores → Bool → Scored → Type 0
Rates scores has_image_task (c, s) =
    (has_image_task ≡ true → c.supports_images ≡ false → s ≡ 0)
    × ((has_image_task ≡ false) ⊎ (c.supports_images ≡ true) → s ≡ or_zero (get c.slug scores))

scored-Rates :
    (scores : Scores) (has_image_task : Bool) (candidates : List RouterCandidate)
    → (map (λ (x : Scored). x.0) (scored scores has_image_task candidates) ≡ candidates)
      × All
          (λ (x : Scored). Rates scores has_image_task x)
          (scored scores has_image_task candidates)
unfolding scored score_of
scored-Rates scores has_image_task [] = (refl, tt)
scored-Rates scores has_image_task (c ∷ candidates) =
    let (same, rest) = scored-Rates scores has_image_task candidates in
    (
      ap (λ cs. c ∷ cs) same,
      (
        (
          (λ task without. ground (arith, task, without)),
          (λ fits. elim fits [
            | inl text ↦ ground (arith, text)
            | inr images ↦ ground (arith, images)
          ]),
        ),
        rest,
      ),
    )

-- `pick_candidate` chooses among the candidates, each with its score: one at or above the threshold than
-- which no other of them is cheaper, or as cheap with a higher score; if there are none, one with the
-- highest score, unless all scores are 0.
pub pick_candidate-IsChosen :
    (scores : Scores) (candidates : List RouterCandidate) (threshold : ℕ) (has_image_task : Bool)
    → (all : List Scored) × (map (λ (x : Scored). x.0) all ≡ candidates)
      × All (λ (x : Scored). Rates scores has_image_task x) all
      × IsChosen threshold all (pick_candidate scores candidates threshold has_image_task)
pick_candidate-IsChosen scores candidates threshold has_image_task =
    let (same, rated) = scored-Rates scores has_image_task candidates in
    (
      scored scores has_image_task candidates,
      same,
      rated,
      pick_candidate-scored scores candidates threshold has_image_task,
    )
