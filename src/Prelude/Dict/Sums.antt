-- ===== src/Prelude/Dict/Sums.antt =====
-- Sums over dictionaries in which an entry is written, or all are 0.
use codex_shim.Prelude.Tests.{Bool-cases}
use codex_shim.Prelude.Equality.{Eq, ◌==◌}
use Prim.Native.Nat.{ℕ, ◌+◌}
use mathlib.Core.Path.{◌≡◌, refl}
use mathlib.Core.Logic.{inl, inr}
use mathlib.Core.Option.{none, some}
use mathlib.Core.List.{[], ◌∷◌}
use native.Mathlib.Omega.{arith}
use codex_shim.Prelude.Dict.{Dict, get, put, pop, Unique, sum_of, pop_absent}

module _ {ℓ κ} {K : Type ℓ} {V : Type κ} ⦃e : Eq K⦄ where
  pub sum_of-put-pop :
      (f : K → V → ℕ) (k : K) (v : V) (d : Dict K V)
      → Unique d
      → sum_of f (put k v d) ≡ sum_of f (pop k d) + f k v
  unfolding sum_of put pop get
  sum_of-put-pop f k v [] u = omega arith
  sum_of-put-pop f k v ((j, w) ∷ d) u = elim (Bool-cases (j == k)) [
    | inl same ↦
        let at : j ≡ k = (e.same_iff j k).0 same in
        let gone : get k d ≡ none = rw (← at) u.0 in rw (same, pop_absent k d gone) (omega arith)
    | inr other ↦ rw other (omega (arith, sum_of-put-pop f k v d u.1))
  ]

  pub sum_of-zero :
      (f : K → V → ℕ) (d : Dict K V)
      → Unique d
      → ((k : K) (v : V) → get k d ≡ some v → f k v ≡ 0)
      → sum_of f d ≡ 0
  unfolding sum_of get
  sum_of-zero f [] u zero_at = refl
  sum_of-zero f ((j, w) ∷ d) u zero_at =
      let here : f j w ≡ 0 = zero_at j w (rw ((e.same_iff j j).1 refl) refl) in
      let later : sum_of f d ≡ 0 = sum_of-zero f d u.1 (λ k v there. elim (Bool-cases (j == k)) [
        | inl same ↦ let absent : get k d ≡ none = rw (← (e.same_iff j k).0 same) u.0 in absurd (cc)
        | inr other ↦ zero_at k v (rw other there)
      ]) in
      omega (arith, here, later)
