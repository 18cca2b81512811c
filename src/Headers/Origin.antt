-- ===== src/Headers/Origin.antt =====
-- Where the headers that go upstream come from.
use mathlib.Core.Path.{subst}
use mathlib.Core.List.{Memᴰ}
use mathlib.Core.List.Memᴰ.{head, tail}
use codex_shim.Prelude.{
  ◌≡◌, refl, sym, ap, ◌∙◌, ◌⊎◌, inl, inr, Bool, true, false, not, ◌||◌, Option, none, some, List,
  [], ◌∷◌, ◌++◌, Text, Text-Eq, codes, text_eq, text_eq_iff, mem, arith, keep_if, any_of,
  Bool-cases, on_true, on_false, if_true, if_false,
}
use codex_shim.Prelude.Dict.{put}
use codex_shim.Headers.{
  Headers, Overrides, lower, hop_by_hop_request, shim_internal_request, ws_upgrade_request,
  is_dropped, same_name, header_present, copy_headers, add_defaults, override_one, apply_overrides,
  client_headers_for_upstream,
}

-- The names that never pass, in small letters: those of the connection, of a WebSocket upgrade, and that
-- of the shim's own token.
abbrev pub never_passed : List Text
never_passed =
    codes "connection"
    ∷ codes "keep-alive"
    ∷ codes "proxy-connection"
    ∷ codes "transfer-encoding"
    ∷ codes "te"
    ∷ codes "trailer"
    ∷ codes "upgrade"
    ∷ codes "host"
    ∷ codes "content-length"
    ∷ codes "content-encoding"
    ∷ codes "x-codex-shim-picker-token"
    ∷ codes "sec-websocket-key"
    ∷ codes "sec-websocket-version"
    ∷ codes "sec-websocket-extensions"
    ∷ codes "sec-websocket-protocol"
    ∷ []

-- A header of the request that may pass.
abbrev pub Passes : Headers → Text × Text → Type 0
Passes request h = Memᴰ h request × (mem (lower h.0) never_passed ≡ false)

-- No override without a value has the name.
abbrev pub NotRemoved : Overrides → Text × Text → Type 0
NotRemoved overrides h = (key : Text) → Memᴰ (key, none) overrides → same_name h.0 key ≡ false

-- A header of the request that may pass, or a default whose name no header has that passes, if its name is
-- not removed; or an override with a value.
pub data IsFrom (request defaults : Headers) (overrides : Overrides) (h : Text × Text)
    : Type 0 where
  from_request : Passes request h → NotRemoved overrides h → IsFrom request defaults overrides h
  from_defaults :
      Memᴰ h defaults
      → ((r : Text × Text) → Passes request r → same_name r.0 h.0 ≡ false)
      → NotRemoved overrides h
      → IsFrom request defaults overrides h
  from_overrides : Memᴰ (h.0, some h.1) overrides → IsFrom request defaults overrides h

mem-append : (k : Text) (xs ys : List Text) → mem k (xs ++ ys) ≡ (mem k xs || mem k ys)
unfolding mem
mem-append k [] ys = refl
mem-append k (x ∷ xs) ys = ground (arith, mem-append k xs ys)

or_assoc : (a b c : Bool) → (a || b || c) ≡ (a || (b || c))
or_assoc true b c = refl
or_assoc false b c = refl

-- The three sets of the source are the names that never pass.
is_dropped-never_passed : (key : Text) → is_dropped key ≡ mem (lower key) never_passed
unfolding is_dropped
is_dropped-never_passed key =
    let k = lower key in
    or_assoc (mem k hop_by_hop_request) (mem k shim_internal_request) (mem k ws_upgrade_request)
    ∙ ap (λ b. mem k hop_by_hop_request || b)
        (sym (mem-append k shim_internal_request ws_upgrade_request))
    ∙ sym (mem-append k hop_by_hop_request (shim_internal_request ++ ws_upgrade_request))

put-Mem :
    (h : Text × Text) (k v : Text) (d : Headers) → Memᴰ h (put k v d) → (h ≡ (k, v)) ⊎ Memᴰ h d
unfolding put
put-Mem h k v [] (head e) = inl e
put-Mem h k v [] (tail m) = elim m [ ]
put-Mem h k v ((j, w) ∷ d) m = elim (Bool-cases (text_eq j k)) [
  | inl same ↦ elim (subst (Memᴰ h) (if_true same ((k, v) ∷ d) ((j, w) ∷ put k v d)) m) [
    | head e ↦ inl e
    | tail later ↦ inr (tail later)
  ]
  | inr other ↦ elim (subst (Memᴰ h) (if_false other ((k, v) ∷ d) ((j, w) ∷ put k v d)) m) [
    | head e ↦ inr (head e)
    | tail later ↦ elim (put-Mem h k v d later) [ inl new ↦ inl new | inr old ↦ inr (tail old) ]
  ]
]

put-present :
    (k v n : Text) (d : Headers)
    → (same_name k n || header_present d n) ≡ true
    → header_present (put k v d) n ≡ true
unfolding put header_present
put-present k v n [] e = ground (arith, e)
put-present k v n ((j, w) ∷ d) e = elim (Bool-cases (text_eq j k)) [
  | inl same ↦
      let at : j ≡ k = (text_eq_iff j k).0 same in
      let name : same_name j n ≡ same_name k n = ap (λ x. same_name x n) at in
      on_true (λ x. any_of (λ (h : Text × Text). same_name h.0 n) x ≡ true) same _ _
        (ground (arith, e, name))
  | inr other ↦
      on_false (λ x. any_of (λ (h : Text × Text). same_name h.0 n) x ≡ true) other _ _
        (ground (arith, e, put-present k v n d))
]

same_name_self : (n : Text) → same_name n n ≡ true
unfolding same_name
same_name_self n = (text_eq_iff (lower n) (lower n)).1 refl

copy-kept :
    (headers merged : Headers) (n : Text)
    → header_present merged n ≡ true
    → header_present (copy_headers headers merged) n ≡ true
unfolding copy_headers
copy-kept [] merged n e = e
copy-kept ((key, value) ∷ headers) merged n e =
    copy-kept headers _ n (elim (Bool-cases (is_dropped key)) [
      | inl dropped ↦ on_true (λ d. header_present d n ≡ true) dropped _ _ e
      | inr passed ↦
          on_false (λ d. header_present d n ≡ true) passed _ _
            (put-present key value n merged (ground (arith, e)))
    ])

copy-present :
    (headers merged : Headers) (r : Text × Text)
    → Memᴰ r headers
    → is_dropped r.0 ≡ false
    → header_present (copy_headers headers merged) r.0 ≡ true
unfolding copy_headers
copy-present [] merged r m passed = elim m [ ]
copy-present ((key, value) ∷ headers) merged r (head e) passed =
    let at : r.0 ≡ key = ap (λ (h : Text × Text). h.0) e in
    let goes : is_dropped key ≡ false = ap is_dropped (sym at) ∙ passed in
    copy-kept headers _ r.0 (
      on_false (λ d. header_present d r.0 ≡ true) goes _ _
        (put-present key value r.0 merged (
          subst (λ k. (same_name k r.0 || header_present merged r.0) ≡ true) at
            (ground (arith, same_name_self r.0)))))
copy-present ((key, value) ∷ headers) merged r (tail m) passed = copy-present headers _ r m passed

copy-Mem :
    (h : Text × Text) (headers merged : Headers)
    → Memᴰ h (copy_headers headers merged)
    → (Memᴰ h headers × (is_dropped h.0 ≡ false)) ⊎ Memᴰ h merged
unfolding copy_headers
copy-Mem h [] merged m = inr m
copy-Mem h ((key, value) ∷ headers) merged m = elim (copy-Mem h headers _ m) [
  | inl (later, passed) ↦ inl (tail later, passed)
  | inr old ↦ elim (Bool-cases (is_dropped key)) [
    | inl dropped ↦ inr (subst (Memᴰ h) (if_true dropped merged (put key value merged)) old)
    | inr passed ↦
        elim (put-Mem h key value merged
          (subst (Memᴰ h) (if_false passed merged (put key value merged)) old)) [
            | inl new ↦ inl (head new, ap (λ (x : Text × Text). is_dropped x.0) new ∙ passed)
            | inr before ↦ inr before
          ]
  ]
]

-- A name that the result of a write lacks was not there before.
absent_before :
    (n key value : Text) (d : Headers)
    → header_present (put key value d) n ≡ false
    → header_present d n ≡ false
absent_before n key value d gone = elim (Bool-cases (header_present d n)) [
  | inl there ↦ absurd (ground (arith, gone, put-present key value n d (ground (arith, there))))
  | inr absent ↦ absent
]

add-Mem :
    (h : Text × Text) (defaults merged : Headers)
    → Memᴰ h (add_defaults defaults merged)
    → (Memᴰ h defaults × (header_present merged h.0 ≡ false)) ⊎ Memᴰ h merged
unfolding add_defaults
add-Mem h [] merged m = inr m
add-Mem h ((key, value) ∷ defaults) merged m = elim (Bool-cases (header_present merged key)) [
  | inl present ↦
      elim (add-Mem h defaults merged (
        subst (λ d. Memᴰ h (add_defaults defaults d))
          (if_true present merged (put key value merged)) m)) [
            | inl (later, absent) ↦ inl (tail later, absent)
            | inr old ↦ inr old
          ]
  | inr absent ↦
      elim (add-Mem h defaults (put key value merged) (
        subst (λ d. Memᴰ h (add_defaults defaults d))
          (if_false absent merged (put key value merged)) m)) [
            | inl (later, gone) ↦ inl (tail later, absent_before h.0 key value merged gone)
            | inr old ↦ elim (put-Mem h key value merged old) [
              | inl new ↦
                  inl (head new, ap (λ (x : Text × Text). header_present merged x.0) new ∙ absent)
              | inr before ↦ inr before
            ]
          ]
]

keep-Mem :
    (h : Text × Text) (keep : Text × Text → Bool) (d : Headers)
    → Memᴰ h (keep_if keep d)
    → Memᴰ h d × (keep h ≡ true)
keep-Mem h keep [] m = elim m [ ]
keep-Mem h keep (x ∷ d) m = elim (Bool-cases (keep x)) [
  | inl kept ↦ elim (subst (Memᴰ h) (if_true kept (x ∷ keep_if keep d) (keep_if keep d)) m) [
    | head e ↦ (head e, ap keep e ∙ kept)
    | tail later ↦ let (there, k) = keep-Mem h keep d later in (tail there, k)
  ]
  | inr gone ↦
      let (there, k) =
        keep-Mem h keep d
          (subst (Memᴰ h) (if_false gone (x ∷ keep_if keep d) (keep_if keep d)) m) in
      (tail there, k)
]

value_none : {key other v : Text} → ◌≡◌ {A = Text × Option Text} (key, none) (other, some v) → ⊥
value_none e = cc

overrides-Mem :
    (h : Text × Text) (overrides : Overrides) (merged : Headers)
    → Memᴰ h (apply_overrides overrides merged)
    → Memᴰ (h.0, some h.1) overrides ⊎ (Memᴰ h merged × NotRemoved overrides h)
unfolding apply_overrides override_one
overrides-Mem h [] merged m = inr (m, λ key there. elim there [ ])
overrides-Mem h ((key, none) ∷ overrides) merged m = elim (overrides-Mem h overrides _ m) [
  | inl later ↦ inl (tail later)
  | inr (old, kept) ↦
      let (there, other) = keep-Mem h (λ (x : Text × Text). not (same_name x.0 key)) merged old in
      inr (
        there,
        λ k at. elim at [
          | head e ↦
              let name : k ≡ key = ap (λ (x : Text × Option Text). x.0) e in
              ap (same_name h.0) name ∙ ground (arith, other)
          | tail later ↦ kept k later
        ],
      )
]
overrides-Mem h ((key, some value) ∷ overrides) merged m = elim (overrides-Mem h overrides _ m) [
  | inl later ↦ inl (tail later)
  | inr (old, kept) ↦ elim (put-Mem h key value merged old) [
    | inl new ↦ inl (head (ap (λ (x : Text × Text). (x.0, some x.1)) new))
    | inr there ↦
        inr (there, λ k at. elim at [ head e ↦ absurd (value_none e) | tail later ↦ kept k later ])
  ]
]

same-present :
    (a b : Text) (d : Headers) → same_name a b ≡ true → header_present d a ≡ header_present d b
unfolding header_present same_name
same-present a b [] e = refl
same-present a b ((j, w) ∷ d) e =
    let name : lower a ≡ lower b = (text_eq_iff (lower a) (lower b)).0 e in
    ap (λ n. text_eq (lower j) n || header_present d a) name
    ∙ ap (λ p. text_eq (lower j) (lower b) || p) (same-present a b d e)

other_name :
    (a b : Text) (d : Headers)
    → header_present d b ≡ false
    → header_present d a ≡ true
    → same_name a b ≡ false
other_name a b d absent there = elim (Bool-cases (same_name a b)) [
  | inl same ↦ absurd (ground (arith, absent, there, same-present a b d same))
  | inr other ↦ other
]

-- Each header that goes upstream is one of the request's, and then its name is none of those that never
-- pass; or a default, whose name no header has that passes; or an override with a value. The name of one
-- of the request's and of a default is not that of an override without a value.
pub client_headers_for_upstream-IsFrom :
    (request_headers : Headers) (overrides : Overrides) (setdefaults : Headers) (h : Text × Text)
    → Memᴰ h (client_headers_for_upstream request_headers overrides setdefaults)
    → IsFrom request_headers setdefaults overrides h
unfolding client_headers_for_upstream
client_headers_for_upstream-IsFrom request overrides defaults h m =
    let copied = copy_headers request [] in
    elim (overrides-Mem h overrides (add_defaults defaults copied) m) [
      | inl value ↦ from_overrides value
      | inr (there, kept) ↦ elim (add-Mem h defaults copied there) [
        | inl (default, absent) ↦
            from_defaults default
              (λ r (at, passes).
                other_name r.0 h.0 copied absent
                  (copy-present request [] r at (is_dropped-never_passed r.0 ∙ passes)))
              kept
        | inr old ↦ elim (copy-Mem h request [] old) [
          | inl (at, passes) ↦ from_request (at, sym (is_dropped-never_passed h.0) ∙ passes) kept
          | inr nothing ↦ elim nothing [ ]
        ]
      ]
    ]
