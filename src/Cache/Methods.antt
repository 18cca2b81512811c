-- ===== src/Cache/Methods.antt =====
-- Every method keeps the bookkeeping, and the bounds that `put` and `prune_until` leave.
use Prim.Native.Nat.{max}
use codex_shim.Prelude.{
  ℕ, ◌≤◌, ◌≡◌, refl, Bool, true, false, not, ◌||◌, Option, none, some, List, [], ◌∷◌, Text, Key,
  Key-Eq, Text-Eq, text_eq, text_eq_iff, arith, length, inl, inr, Bool-cases, Option-cases,
  is_empty, if◌then◌else◌,
}
use codex_shim.Prelude.Dict.{get, put-Unique}
use codex_shim.Cache.State.{
  File, Cache, Host, or_zero, entry_path, remember, note_disk, max_cached_responses_per_session,
}
use codex_shim.Cache.Index.{ensure_index}
use codex_shim.Cache.Store.{
  evict_session, evict_sessions, evict, read_file, get_items, atomic_write, put_items, latest,
  last_of_session, prune_until,
}
use codex_shim.Cache.Invariant.{
  IsConsistent, indexed, in_session, remember-IsConsistent, touch-IsConsistent,
  note_disk-IsConsistent,
}
use codex_shim.Cache.Rebuild.{ensure_index-IsConsistent}
use codex_shim.Cache.Eviction.{
  Drops, no_drop, Drops-IsConsistent, sum-Drops, evict_session-Drops, evict_session-bound,
  evict_bytes-Drops, evict_bytes-bound,
}

module _ {A : Type 0} (h : Host A) where
  evict_sessions-Drops :
      (l : List (Text × ℕ)) (c0 c : Cache A) → Drops h c0 c → Drops h c0 (evict_sessions h l c)
  unfolding evict_sessions
  evict_sessions-Drops [] c0 c r = r
  evict_sessions-Drops ((s, n) ∷ l) c0 c r =
      evict_sessions-Drops l c0 (evict_session h (length c.disk) s n c)
        (evict_session-Drops h (length c.disk) s n c0 c r)

  pub evict-Drops : (c : Cache A) → Drops h c (evict h c)
  unfolding evict
  evict-Drops c =
      let c' = evict_sessions h c.session_counts c in
      evict_bytes-Drops h (length c'.disk) h.max_cache_bytes c c'
        (evict_sessions-Drops c.session_counts c c no_drop)

  -- A session is within the bound, or the snapshot lists at least what it has.
  abbrev Listed : List (Text × ℕ) → Cache A → Type 0
  Listed l c =
      (s : Text) → indexed s c.disk ≤ max max_cached_responses_per_session (or_zero (get s l))

  Listed-step :
      (s : Text) (n : ℕ) (l : List (Text × ℕ)) (c : Cache A)
      → IsConsistent c
      → Listed ((s, n) ∷ l) c
      → Listed l (evict_session h (length c.disk) s n c)
  unfolding get
  Listed-step s n l c i listed t = elim (Bool-cases (text_eq s t)) [
    | inl same ↦
        let at : s ≡ t = (text_eq_iff s t).0 same in
        rw (← at) (
          omega (
            arith,
            evict_session-bound h (length c.disk) s n c i
                (ground (arith, listed s, text_eq_iff s s)) (omega arith),
          ))
    | inr other ↦ ground (
      arith,
      listed t,
      sum-Drops h (in_session t) (evict_session-Drops h (length c.disk) s n c c no_drop) i,
    )
  ]

  evict_sessions-bound :
      (l : List (Text × ℕ)) (c : Cache A)
      → IsConsistent c
      → Listed l c
      → (s : Text) → indexed s (evict_sessions h l c).disk ≤ max_cached_responses_per_session
  unfolding evict_sessions get
  evict_sessions-bound [] c i listed s = omega (arith, listed s)
  evict_sessions-bound ((s, n) ∷ l) c i listed t =
      let c' = evict_session h (length c.disk) s n c in
      evict_sessions-bound l c'
        (Drops-IsConsistent h (evict_session-Drops h (length c.disk) s n c c no_drop) i)
        (Listed-step s n l c i listed) t

  -- `_evict_locked` leaves at most 1024 responses for each session.
  pub evict_within_sessions :
      (c : Cache A)
      → IsConsistent c
      → (s : Text) → indexed s (evict h c).disk ≤ max_cached_responses_per_session
  unfolding evict
  evict_within_sessions c i s =
      let c' = evict_sessions h c.session_counts c in
      let r = evict_sessions-Drops c.session_counts c c no_drop in
      omega (
        arith,
        sum-Drops h (in_session s)
            (evict_bytes-Drops h (length c'.disk) h.max_cache_bytes c' c' no_drop)
            (Drops-IsConsistent h r i),
        evict_sessions-bound c.session_counts c i (λ t. omega (arith, i.counts t)) s,
      )

  pub evict_within_bytes :
      (c : Cache A) → IsConsistent c → (evict h c).disk_bytes ≤ h.max_cache_bytes
  unfolding evict
  evict_within_bytes c i =
      let c' = evict_sessions h c.session_counts c in
      evict_bytes-bound h (length c'.disk) h.max_cache_bytes c'
        (Drops-IsConsistent h (evict_sessions-Drops c.session_counts c c no_drop) i) (omega arith)

  pub evict-IsConsistent : (c : Cache A) → IsConsistent c → IsConsistent (evict h c)
  evict-IsConsistent c i = Drops-IsConsistent h (evict-Drops c) i

  pub atomic_write-IsConsistent :
      (now : ℕ) (key : Key) (items : List A) (c : Cache A)
      → IsConsistent c
      → IsConsistent (atomic_write h now key items c)
  unfolding atomic_write
  atomic_write-IsConsistent now key items c i = record {
    memory_unique = i.memory_unique;
    memory_bound = i.memory_bound;
    disk_unique = i.disk_unique;
    bytes = i.bytes;
    counts = i.counts;
    counts_unique = i.counts_unique;
    counts_live = i.counts_live;
    files_unique = put-Unique (entry_path h key) _ c.files i.files_unique;
  }

  if-IsConsistent :
      (b : Bool) (c d : Cache A)
      → IsConsistent c
      → IsConsistent d
      → IsConsistent (if b then c else d)
  if-IsConsistent true c d i j = i
  if-IsConsistent false c d i j = j

  pub put_items-IsConsistent :
      (now : ℕ) (s r : Text) (items : List A) (terminal : Bool) (c : Cache A)
      → IsConsistent c
      → IsConsistent (put_items h now s r items terminal c)
  unfolding put_items
  put_items-IsConsistent now s r items terminal c i =
      let key : Key = record { session = s; response = r } in
      let remembered = remember-IsConsistent key items c i in
      let written =
        atomic_write-IsConsistent now key items (ensure_index (remember key items c))
          (ensure_index-IsConsistent (remember key items c) remembered) in
      let stored =
        note_disk-IsConsistent key (h.encoded_size items)
          (atomic_write h now key items (ensure_index (remember key items c))) written in
      if-IsConsistent (is_empty r || is_empty items) c _ i (
        if-IsConsistent (not terminal) (remember key items c) _ remembered
          (evict-IsConsistent _ stored))

  found-IsConsistent :
      (key : Key) (size : ℕ) (o : Option ℕ) (c : Cache A)
      → IsConsistent c
      → IsConsistent (elim o [ none ↦ note_disk key size c | some n ↦ c ])
  found-IsConsistent key size none c i = note_disk-IsConsistent key size c i
  found-IsConsistent key size (some n) c i = i

  read_items-IsConsistent :
      (key : Key) (file : File A) (o : Option (List A)) (c : Cache A)
      → IsConsistent c
      → file.items ≡ o
      → IsConsistent (read_file key (some file) c).0
  unfolding read_file
  read_items-IsConsistent key file none c i e = rw (e, read_file) i
  read_items-IsConsistent key file (some []) c i e = rw (e, read_file) i
  read_items-IsConsistent key file (some (x ∷ xs)) c i e =
      rw (e, read_file)
        (touch-IsConsistent key _ (
          remember-IsConsistent key (x ∷ xs) _ (
            found-IsConsistent key file.size (get key (ensure_index c).disk) (ensure_index c)
              (ensure_index-IsConsistent c i))))

  read_file-IsConsistent :
      (key : Key) (file : Option (File A)) (c : Cache A)
      → IsConsistent c
      → IsConsistent (read_file key file c).0
  unfolding read_file
  read_file-IsConsistent key none c i = i
  read_file-IsConsistent key (some file) c i = read_items-IsConsistent key file file.items c i refl

  pub get_items-IsConsistent :
      (s r : Text) (c : Cache A) → IsConsistent c → IsConsistent (get_items h s r c).0
  unfolding get_items
  get_items-IsConsistent s r c i =
      let key : Key = record { session = s; response = r } in
      elim (Bool-cases (is_empty r)) [
        | inl blank ↦ rw blank i
        | inr named ↦ elim (Option-cases (get key c.memory)) [
          | inl miss ↦
              rw (named, miss) (read_file-IsConsistent key (get (entry_path h key) c.files) c i)
          | inr (cached, hit) ↦ rw (named, hit) (touch-IsConsistent key c i)
        ]
      ]

  pub latest-IsConsistent :
      (s : Text) (c : Cache A) → IsConsistent c → IsConsistent (latest h s c).0
  unfolding latest
  latest-IsConsistent s c i =
      let j = ensure_index-IsConsistent c i in
      elim (Bool-cases (is_empty s)) [
        | inl blank ↦ rw blank i
        | inr named ↦ elim (Option-cases (last_of_session s (ensure_index c).disk)) [
          | inl miss ↦ rw (named, miss) j
          | inr (key, hit) ↦
              rw (named, hit) (get_items-IsConsistent s key.response (ensure_index c) j)
        ]
      ]

  pub prune_until-IsConsistent :
      (limit : ℕ) (c : Cache A) → IsConsistent c → IsConsistent (prune_until h limit c).0
  unfolding prune_until
  prune_until-IsConsistent limit c i =
      Drops-IsConsistent h
        (evict_bytes-Drops h (length (ensure_index c).disk) limit (ensure_index c) (ensure_index c)
          no_drop)
        (ensure_index-IsConsistent c i)
