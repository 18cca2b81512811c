-- ===== src/Cache/Eviction.antt =====
-- Eviction: what `_evict_locked` drops, and the bounds that hold afterwards.
use Prim.Native.Nat.{max}
use codex_shim.Prelude.{
  ℕ, zero, suc, ◌+◌, ◌≤◌, ◌≡◌, refl, ap, ◌⊎◌, none, some, List, [], ◌∷◌, Text, Key, Key-Eq, Text-Eq,
  ◌==◌, text_eq, key_eq_iff, arith, ltb, length, inl, inr, Bool-cases, Option-cases,
}
use codex_shim.Prelude.Dict.{Dict, get, pop, share, sum_of, sum_of-pop, length-sum_of, Unique}
use codex_shim.Cache.State.{Cache, Host, or_zero, drop_disk, max_cached_responses_per_session}
use codex_shim.Cache.Store.{first_of_session, evict_session, evict_bytes}
use codex_shim.Cache.Invariant.{IsConsistent, size_of, indexed, drop_disk-IsConsistent}

-- `d` comes from `c` by dropping indexed entries.
pub data Drops {A : Type 0} (h : Host A) (c : Cache A) : Cache A → Type 0 where
  no_drop : Drops h c c
  one_more :
      {d : Cache A}
      → Drops h c d
      → (key : Key) (n : ℕ) → get key d.disk ≡ some n
      → Drops h c (drop_disk h key d)

module _ {A : Type 0} (h : Host A) where
  pub Drops-IsConsistent : {c d : Cache A} → Drops h c d → IsConsistent c → IsConsistent d
  Drops-IsConsistent no_drop i = i
  Drops-IsConsistent (one_more {d = d} r key n here) i =
      drop_disk-IsConsistent h key n d here (Drops-IsConsistent r i)

  sum-drop_disk :
      (f : Key → ℕ → ℕ) (key : Key) (d : Cache A)
      → Unique d.disk
      → sum_of f (drop_disk h key d).disk ≤ sum_of f d.disk
  unfolding drop_disk
  sum-drop_disk f key d u = omega (arith, sum_of-pop f key d.disk u)

  pub sum-Drops :
      (f : Key → ℕ → ℕ) {c d : Cache A}
      → Drops h c d
      → IsConsistent c
      → sum_of f d.disk ≤ sum_of f c.disk
  sum-Drops f no_drop i = omega arith
  sum-Drops f (one_more {d = d} r key n here) i =
      omega (arith, sum-Drops f r i, sum-drop_disk f key d (Drops-IsConsistent r i).disk_unique)

  length-drop_disk :
      (key : Key) (n : ℕ) (d : Cache A)
      → Unique d.disk
      → get key d.disk ≡ some n
      → length (drop_disk h key d).disk + 1 ≡ length d.disk
  unfolding drop_disk
  length-drop_disk key n d u here = omega (
    arith,
    length-sum_of d.disk,
    length-sum_of (pop key d.disk),
    ap (share (λ k v. 1) key) here,
    sum_of-pop (λ k v. 1) key d.disk u,
  )

first_of_session-mem :
    (s : Text) (d : Dict Key ℕ) (key : Key)
    → first_of_session s d ≡ some key
    → (n : ℕ) × (get key d ≡ some n)
unfolding first_of_session get
first_of_session-mem s [] key e = cc
first_of_session-mem s ((j, v) ∷ d) key e = elim (Bool-cases (text_eq j.session s)) [
  | inl same ↦ (v, ground (arith, key_eq_iff j key))
  | inr other ↦
      let (n, here) = first_of_session-mem s d key (rw other at e) in
      elim (Bool-cases (j == key)) [ inl eq ↦ (v, rw eq refl) | inr ne ↦ (n, rw ne here) ]
]

first_of_session-none : (s : Text) (d : Dict Key ℕ) → first_of_session s d ≡ none → indexed s d ≡ 0
unfolding first_of_session sum_of
first_of_session-none s [] e = refl
first_of_session-none s ((j, v) ∷ d) e = ground (arith, first_of_session-none s d)

sum-le-length : (s : Text) (d : Dict Key ℕ) → indexed s d ≤ length d
unfolding sum_of
sum-le-length s [] = omega arith
sum-le-length s ((j, v) ∷ d) = ground (arith, sum-le-length s d)

empty-sum : (d : Dict Key ℕ) → length d ≡ 0 → sum_of size_of d ≡ 0
unfolding sum_of
empty-sum [] e = refl
empty-sum (e ∷ d) h = absurd (omega arith)

get-head : (key : Key) (n : ℕ) (d : Dict Key ℕ) → get key ((key, n) ∷ d) ≡ some n
unfolding get
get-head key n d = ground (arith, key_eq_iff key key)

List-cases {ℓ} :
    {A : Type ℓ} (xs : List A) → (xs ≡ []) ⊎ ((x : A) × (rest : List A) × (xs ≡ x ∷ rest))
List-cases [] = inl refl
List-cases (x ∷ xs) = inr (x, xs, refl)

module _ {A : Type 0} (h : Host A) where
  pub evict_session-Drops :
      (fuel : ℕ) (s : Text) (count : ℕ) (c0 c : Cache A)
      → Drops h c0 c
      → Drops h c0 (evict_session h fuel s count c)
  unfolding evict_session
  evict_session-Drops zero s count c0 c r = r
  evict_session-Drops (suc fuel) s count c0 c r =
      elim (Bool-cases (ltb max_cached_responses_per_session count)) [
        | inr within ↦ rw (within, evict_session) r
        | inl over ↦ elim (Option-cases (first_of_session s c.disk)) [
          | inl absent ↦ rw (over, evict_session, absent) r
          | inr (victim, found) ↦
              let (n, here) = first_of_session-mem s c.disk victim found in
              rw (over, evict_session, found)
                (evict_session-Drops fuel s _ c0 (drop_disk h victim c) (one_more r victim n here))
        ]
      ]

  pub evict_session-bound :
      (fuel : ℕ) (s : Text) (count : ℕ) (c : Cache A)
      → IsConsistent c
      → indexed s c.disk ≤ max max_cached_responses_per_session count
      → length c.disk ≤ fuel
      → indexed s (evict_session h fuel s count c).disk ≤ max_cached_responses_per_session
  unfolding evict_session
  evict_session-bound zero s count c i le enough = omega (arith, sum-le-length s c.disk)
  evict_session-bound (suc fuel) s count c i le enough =
      elim (Bool-cases (ltb max_cached_responses_per_session count)) [
        | inr within ↦ rw (within, evict_session) (ground arith)
        | inl over ↦ elim (Option-cases (first_of_session s c.disk)) [
          | inl absent ↦
              rw (over, evict_session, absent)
                (omega (arith, first_of_session-none s c.disk absent))
          | inr (victim, found) ↦
              let (n, here) = first_of_session-mem s c.disk victim found in
              let c' = drop_disk h victim c in
              let i' : IsConsistent c' = drop_disk-IsConsistent h victim n c here i in
              rw (over, evict_session, found)
                (evict_session-bound fuel s (or_zero (get s c'.session_counts)) c' i'
                  (omega (arith, i'.counts s))
                  (omega (arith, length-drop_disk h victim n c i.disk_unique here)))
        ]
      ]

  pub evict_bytes-Drops :
      (fuel limit : ℕ) (c0 c : Cache A) → Drops h c0 c → Drops h c0 (evict_bytes h fuel limit c)
  unfolding evict_bytes
  evict_bytes-Drops zero limit c0 c r = r
  evict_bytes-Drops (suc fuel) limit c0 c r = elim (Bool-cases (ltb limit c.disk_bytes)) [
    | inr within ↦ rw (within, evict_bytes) r
    | inl over ↦ elim (List-cases c.disk) [
      | inl absent ↦ rw (over, evict_bytes, absent) r
      | inr ((key, n), rest, shape) ↦
          rw (over, evict_bytes, shape)
            (evict_bytes-Drops fuel limit c0 (drop_disk h key c)
              (one_more r key n (rw shape (get-head key n rest))))
    ]
  ]

  -- With a round for each entry the loop ends with the total within the limit.
  pub evict_bytes-bound :
      (fuel limit : ℕ) (c : Cache A)
      → IsConsistent c
      → length c.disk ≤ fuel
      → (evict_bytes h fuel limit c).disk_bytes ≤ limit
  unfolding evict_bytes
  evict_bytes-bound zero limit c i enough = omega (arith, i.bytes, empty-sum c.disk)
  evict_bytes-bound (suc fuel) limit c i enough = elim (Bool-cases (ltb limit c.disk_bytes)) [
    | inr within ↦ rw (within, evict_bytes) (ground arith)
    | inl over ↦ elim (List-cases c.disk) [
      | inl absent ↦
          rw (over, evict_bytes, absent)
            (omega (arith, i.bytes, ap (sum_of size_of) absent, empty-sum []))
      | inr ((key, n), rest, shape) ↦
          let here : get key c.disk ≡ some n = rw shape (get-head key n rest) in
          rw (over, evict_bytes, shape)
            (evict_bytes-bound fuel limit (drop_disk h key c)
              (drop_disk-IsConsistent h key n c here i)
              (omega (arith, length-drop_disk h key n c i.disk_unique here)))
    ]
  ]
