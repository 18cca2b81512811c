-- ===== src/Prelude/Dict.antt =====
-- Python's `dict` and `OrderedDict`: entries in the order of insertion, one for each key.
pub mod Sums
use codex_shim.Prelude.Tests.{if◌then◌else◌, Bool-cases, Option-cases}
use codex_shim.Prelude.Lists.{length}
use codex_shim.Prelude.Equality.{Eq, ◌==◌}
use Prim.Native.Nat.{ℕ, ◌+◌, ◌≤◌}
use mathlib.Core.Path.{◌≡◌, refl, ap}
use mathlib.Core.Logic.{inl, inr}
use mathlib.Core.Option.{Option, none, some}
use mathlib.Core.List.{List, [], ◌∷◌, ◌++◌}
use native.Mathlib.Omega.{arith}

abbrev pub Dict {ℓ κ} : Type ℓ → Type κ → Type (ℓ ⊔ κ)
Dict K V = List (K × V)

module _ {ℓ κ} {K : Type ℓ} {V : Type κ} ⦃e : Eq K⦄ where
  -- d.get(k)
  unfoldable pub get : K → Dict K V → Option V
  get k [] = none
  get k ((j, v) ∷ d) = if j == k then some v else get k d

  -- del d[k], d.pop(k, None)
  unfoldable pub pop : K → Dict K V → Dict K V
  pop k [] = []
  pop k ((j, v) ∷ d) = let rest = pop k d in if j == k then rest else (j, v) ∷ rest

  -- d[k] = v: in place for a key that is there, else at the end
  unfoldable pub put : K → V → Dict K V → Dict K V
  put k v [] = (k, v) ∷ []
  put k v ((j, w) ∷ d) = if j == k then (k, v) ∷ d else (j, w) ∷ put k v d

  -- d.move_to_end(k); the program calls it for keys that are there
  unfoldable pub move_to_end : K → Dict K V → Dict K V
  unfolding get pop
  move_to_end k d = elim (get k d) [ none ↦ d | some v ↦ pop k d ++ (k, v) ∷ [] ]

  pub get-pop : (k j : K) (d : Dict K V) → get j (pop k d) ≡ (if k == j then none else get j d)
  unfolding get pop
  get-pop k j [] = ground arith
  get-pop k j ((i, v) ∷ d) =
      ground (arith, get-pop k j d, e.same_iff i k, e.same_iff i j, e.same_iff k j)

  pub get-put :
      (k j : K) (v : V) (d : Dict K V) → get j (put k v d) ≡ (if k == j then some v else get j d)
  unfolding get put
  get-put k j v [] = refl
  get-put k j v ((i, w) ∷ d) =
      ground (arith, get-put k j v d, e.same_iff i k, e.same_iff i j, e.same_iff k j)

  pub get-here : (k : K) (v : V) → get k ((k, v) ∷ []) ≡ some v
  unfolding get
  get-here k v = ground (arith, e.same_iff k k)

  pub get-append :
      (j : K) (c d : Dict K V)
      → get j (c ++ d) ≡ elim (get j c) [ none ↦ get j d | some v ↦ some v ]
  unfolding get
  get-append j [] d = refl
  get-append j ((i, w) ∷ c) d = ground (arith, get-append j c d)

  pub get-move_to_end : (k j : K) (d : Dict K V) → get j (move_to_end k d) ≡ get j d
  unfolding move_to_end
  get-move_to_end k j d = elim (Option-cases (get k d)) [
    | inl absent ↦ rw (absent, move_to_end) refl
    | inr (v, here) ↦
        rw (here, move_to_end)
          (ground (
            arith,
            get-append j (pop k d) ((k, v) ∷ []),
            get-pop k j d,
            e.same_iff k j,
            here,
            get-here k v,
          ))
  ]

  -- No key stands twice.
  abbrev pub Unique : Dict K V → Type κ
  Unique [] = Unit
  Unique ((k, v) ∷ d) = (get k d ≡ none) × Unique d

  pub pop_absent : (k : K) (d : Dict K V) → get k d ≡ none → pop k d ≡ d
  unfolding get pop
  pop_absent k [] h = refl
  pop_absent k ((j, v) ∷ d) h = ground (arith, pop_absent k d)

  pub pop-Unique : (k : K) (d : Dict K V) → Unique d → Unique (pop k d)
  unfolding pop
  pop-Unique k [] u = tt
  pop-Unique k ((j, v) ∷ d) u = ground (arith, pop-Unique k d, get-pop k j d)

  pub append-Unique :
      (k : K) (v : V) (d : Dict K V) → get k d ≡ none → Unique d → Unique (d ++ (k, v) ∷ [])
  unfolding get
  append-Unique k v [] h u = (refl, tt)
  append-Unique k v ((j, w) ∷ d) h u =
      ground
        (arith, append-Unique k v d, get-append j d ((k, v) ∷ []), e.same_iff j k, e.same_iff k j)

  pub put-Unique : (k : K) (v : V) (d : Dict K V) → Unique d → Unique (put k v d)
  unfolding put get
  put-Unique k v [] u = (refl, tt)
  put-Unique k v ((j, w) ∷ d) u =
      ground (arith, put-Unique k v d, get-put k j v d, e.same_iff j k, e.same_iff k j)

  pub pop-get : (k : K) (d : Dict K V) → get k (pop k d) ≡ none
  pop-get k d = rw get-pop (ground (arith, e.same_iff k k))

  -- The moved entry stands last.
  pub last-Unique : (k : K) (v : V) (d : Dict K V) → Unique d → Unique (pop k d ++ (k, v) ∷ [])
  last-Unique k v d u = append-Unique k v (pop k d) (pop-get k d) (pop-Unique k d u)

  pub move_to_end-Unique : (k : K) (d : Dict K V) → Unique d → Unique (move_to_end k d)
  unfolding move_to_end
  move_to_end-Unique k d u = elim (Option-cases (get k d)) [
    | inl absent ↦ rw (absent, move_to_end) u
    | inr (v, here) ↦ rw (here, move_to_end) (last-Unique k v d u)
  ]

  -- An entry's share of a sum over the dictionary.
  abbrev pub share : (K → V → ℕ) → K → Option V → ℕ
  share f k none = 0
  share f k (some v) = f k v

  unfoldable pub sum_of : (K → V → ℕ) → Dict K V → ℕ
  sum_of f [] = 0
  sum_of f ((k, v) ∷ d) = f k v + sum_of f d

  pub sum_of-append : (f : K → V → ℕ) (c d : Dict K V) → sum_of f (c ++ d) ≡ sum_of f c + sum_of f d
  unfolding sum_of
  sum_of-append f [] d = omega arith
  sum_of-append f ((k, v) ∷ c) d = omega (arith, sum_of-append f c d)

  pub sum_of-pop :
      (f : K → V → ℕ) (k : K) (d : Dict K V)
      → Unique d
      → sum_of f (pop k d) + share f k (get k d) ≡ sum_of f d
  unfolding sum_of get pop
  sum_of-pop f k [] u = refl
  sum_of-pop f k ((j, v) ∷ d) u = elim (Bool-cases (j == k)) [
    | inl same ↦
        let at : j ≡ k = (e.same_iff j k).0 same in
        let gone : get k d ≡ none = rw (← at) u.0 in
        rw (same, pop_absent k d gone, at) (omega arith)
    | inr other ↦ rw other (omega (arith, sum_of-pop f k d u.1))
  ]

  -- Writing the entry anew at the end: the old share is replaced by the new one.
  pub sum_of-last :
      (f : K → V → ℕ) (k : K) (v : V) (d : Dict K V)
      → Unique d
      → sum_of f (pop k d ++ (k, v) ∷ []) + share f k (get k d) ≡ sum_of f d + f k v
  unfolding sum_of
  sum_of-last f k v d u = omega (arith, sum_of-append f (pop k d) ((k, v) ∷ []), sum_of-pop f k d u)

  pub pop-put : (k : K) (v : V) (d : Dict K V) → pop k (put k v d) ≡ pop k d
  unfolding pop put
  pop-put k v [] = ground (arith, e.same_iff k k)
  pop-put k v ((j, w) ∷ d) = ground (arith, pop-put k v d, e.same_iff j k, e.same_iff k k)

  -- d[k] = v; d.move_to_end(k)
  pub move_to_end-put :
      (k : K) (v : V) (d : Dict K V) → move_to_end k (put k v d) ≡ pop k d ++ (k, v) ∷ []
  unfolding move_to_end
  move_to_end-put k v d = rw (here, move_to_end) (rw (pop-put k v d) refl)
    where
      here : get k (put k v d) ≡ some v
      here = ground (arith, get-put k k v d, e.same_iff k k)

  pub sum_of-move_to_end :
      (f : K → V → ℕ) (k : K) (d : Dict K V) → Unique d → sum_of f (move_to_end k d) ≡ sum_of f d
  unfolding move_to_end
  sum_of-move_to_end f k d u = elim (Option-cases (get k d)) [
    | inl absent ↦ rw (absent, move_to_end) refl
    | inr (v, here) ↦
        rw (here, move_to_end) (omega (arith, ap (share f k) here, sum_of-last f k v d u))
  ]

  pub length-sum_of : (d : Dict K V) → length d ≡ sum_of (λ k v. 1) d
  unfolding sum_of
  length-sum_of [] = refl
  length-sum_of ((k, v) ∷ d) = omega (arith, length-sum_of d)

  pub length-move_to_end : (k : K) (d : Dict K V) → Unique d → length (move_to_end k d) ≡ length d
  length-move_to_end k d u =
      omega (
        arith,
        length-sum_of d,
        length-sum_of (move_to_end k d),
        sum_of-move_to_end (λ k v. 1) k d u,
      )

  pub length-pop-le : (k : K) (d : Dict K V) → length (pop k d) ≤ length d
  unfolding pop
  length-pop-le k [] = omega arith
  length-pop-le k ((j, v) ∷ d) = ground (arith, length-pop-le k d)

  pub sum_of-put :
      (f : K → V → ℕ) (k : K) (v : V) (d : Dict K V)
      → get k d ≡ none
      → sum_of f (put k v d) ≡ sum_of f d + f k v
  unfolding sum_of put get
  sum_of-put f k v [] h = omega arith
  sum_of-put f k v ((j, w) ∷ d) h = ground (arith, sum_of-put f k v d)
