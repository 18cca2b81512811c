-- ===== src/HostGuard/Admission.antt =====
-- A page that reached the loopback address under a foreign name is not admitted.
use mathlib.Core.Path.{subst}
use mathlib.Core.List.{Memᴰ}
use mathlib.Core.List.Memᴰ.{head, tail}
use codex_shim.Prelude.{
  ◌≡◌, refl, sym, ap, ◌∙◌, ◌⊎◌, inl, inr, true, false, List, [], ◌∷◌, ◌++◌, map, Text, text_eq,
  text_eq_iff, mem, strip, is_empty, arith, Bool-cases, if_true, if_false,
}
use codex_shim.HostGuard.{
  default_allowed_hosts, wildcard_binds, host_only, split_commas, listed_hosts, bind_hosts,
  build_allowed_hosts, is_admitted,
}
use codex_shim.HostGuard.Names.{Names, host_only-Names}

-- A host's name, in small letters, is that of the loopback address, of the address that was bound, or
-- of a part of the variable that is not empty.
pub data IsKnown (lower : Text → Text) (bind_host allowed_variable host : Text) : Type 0 where
  loopback :
      Memᴰ host (map lower default_allowed_hosts) → IsKnown lower bind_host allowed_variable host
  bound :
      host ≡ lower (strip bind_host)
      → mem (lower (strip bind_host)) wildcard_binds ≡ false
      → IsKnown lower bind_host allowed_variable host
  listed :
      (part : Text)
      → Memᴰ part (split_commas allowed_variable)
      → host ≡ lower (strip part)
      → is_empty host ≡ false
      → IsKnown lower bind_host allowed_variable host

mem-Memᴰ : (k : Text) (xs : List Text) → mem k xs ≡ true → Memᴰ k xs
unfolding mem
mem-Memᴰ k [] e = cc
mem-Memᴰ k (x ∷ xs) e = elim (Bool-cases (text_eq x k)) [
  | inl same ↦ head (sym ((text_eq_iff x k).0 same))
  | inr other ↦ tail (mem-Memᴰ k xs (ground (arith, e, other)))
]

append-cases : (k : Text) (xs ys : List Text) → Memᴰ k (xs ++ ys) → Memᴰ k xs ⊎ Memᴰ k ys
append-cases k [] ys m = inr m
append-cases k (x ∷ xs) ys (head e) = inl (head e)
append-cases k (x ∷ xs) ys (tail m) = elim (append-cases k xs ys m) [
  | inl here ↦ inl (tail here)
  | inr there ↦ inr there
]

unmap :
    (f : Text → Text) (k : Text) (xs : List Text)
    → Memᴰ k (map f xs)
    → (x : Text) × Memᴰ x xs × (k ≡ f x)
unmap f k [] m = elim m [ ]
unmap f k (x ∷ xs) (head e) = (x, head refl, e)
unmap f k (x ∷ xs) (tail m) = let (y, there, e) = unmap f k xs m in (y, tail there, e)

abbrev IsPart : (Text → Text) → Text → List Text → Type 0
IsPart lower h parts =
    (part : Text) × Memᴰ part parts × (h ≡ lower (strip part)) × (is_empty h ≡ false)

abbrev more_parts :
    (lower : Text → Text) {h : Text} {parts : List Text} (part : Text)
    → IsPart lower h parts
    → IsPart lower h (part ∷ parts)
more_parts lower part (found, m, e, there) = (found, tail m, e, there)

module _ (lower : Text → Text) where
  listed_hosts-part :
      (h : Text) (parts : List Text) → Memᴰ h (listed_hosts lower parts) → IsPart lower h parts
  unfolding listed_hosts
  listed_hosts-part h [] m = elim m [ ]
  listed_hosts-part h (part ∷ parts) m =
      let host = lower (strip part) in
      let rest = listed_hosts lower parts in
      elim (Bool-cases (is_empty host)) [
        | inl blank ↦
            more_parts lower part
              (listed_hosts-part h parts (subst (Memᴰ h) (if_true blank rest (host ∷ rest)) m))
        | inr there ↦ elim (subst (Memᴰ h) (if_false there rest (host ∷ rest)) m) [
          | head e ↦ (part, head refl, e, ap is_empty e ∙ there)
          | tail later ↦ more_parts lower part (listed_hosts-part h parts later)
        ]
      ]

  bind_hosts-bound :
      (h bind_host : Text)
      → Memᴰ h (bind_hosts lower bind_host)
      → (h ≡ lower (strip bind_host)) × (mem (lower (strip bind_host)) wildcard_binds ≡ false)
  unfolding bind_hosts
  bind_hosts-bound h bind_host m =
      let bind = lower (strip bind_host) in
      elim (Bool-cases (mem bind wildcard_binds)) [
        | inl wildcard ↦ elim (subst (Memᴰ h) (if_true wildcard [] (bind ∷ [])) m) [ ]
        | inr single ↦ elim (subst (Memᴰ h) (if_false single [] (bind ∷ [])) m) [
          | head e ↦ (e, single)
          | tail none_left ↦ elim none_left [ ]
        ]
      ]

  -- An allowed host is known, and it is in small letters.
  allowed-IsKnown :
      (h bind_host variable : Text)
      → Memᴰ h (build_allowed_hosts lower bind_host variable)
      → IsKnown lower bind_host variable h × ((t : Text) × (h ≡ lower t))
  unfolding build_allowed_hosts
  allowed-IsKnown h bind_host variable m =
      let others = bind_hosts lower bind_host ++ listed_hosts lower (split_commas variable) in
      elim (append-cases h (map lower default_allowed_hosts) others m) [
        | inl here ↦
            let (t, there, e) = unmap lower h default_allowed_hosts here in (loopback here, (t, e))
        | inr more ↦
            elim (append-cases h (bind_hosts lower bind_host)
              (listed_hosts lower (split_commas variable)) more) [
                | inl at_bind ↦
                    let (e, single) = bind_hosts-bound h bind_host at_bind in
                    (bound e single, (strip bind_host, e))
                | inr in_variable ↦
                    let (part, there, e, text) =
                      listed_hosts-part h (split_commas variable) in_variable in
                    (listed part there e text, (strip part, e))
              ]
      ]

-- A request is admitted only if its Host header, less the spaces around it, names a host, in brackets,
-- before the only colon or without a port, that is in small letters the loopback address, the address
-- that was bound, unless that is a wildcard, or a part of the variable that is not empty. Of `str.lower`
-- it is assumed that it changes nothing in its own results.
pub is_admitted-IsKnown :
    (lower : Text → Text) (bind_host allowed_variable host_header : Text)
    → ((t : Text) → lower (lower t) ≡ lower t)
    → is_admitted lower (build_allowed_hosts lower bind_host allowed_variable) host_header ≡ true
    → (named : Text) × Names (strip host_header) named
      × IsKnown lower bind_host allowed_variable (lower named)
unfolding is_admitted
is_admitted-IsKnown lower bind_host variable host_header fixed admitted =
    let host = lower (host_only host_header) in
    let allowed = build_allowed_hosts lower bind_host variable in
    let (h, m, e) = unmap lower host allowed (mem-Memᴰ host (map lower allowed) admitted) in
    let (known, (t, small)) = allowed-IsKnown lower h bind_host variable m in
    (
      host_only host_header,
      host_only-Names host_header,
      subst (IsKnown lower bind_host variable)
          (small ∙ sym (fixed t) ∙ ap lower (sym small) ∙ sym e) known,
    )
