-- ===== src/Cache/Promises.antt =====
-- What the cache promises its callers.
use codex_shim.Prelude.{
  ℕ, ◌≤◌, ◌<◌, ◌≡◌, refl, ap, ◌∙◌, Bool, true, false, Option, none, some, List, [], ◌∷◌, ◌++◌, Text,
  Key, Key-Eq, Text-Eq, text_eq, text_eq_iff, key_eq_iff, arith, length, is_empty,
}
use codex_shim.Prelude.Dict.{
  Dict, get, pop, sum_of, get-move_to_end, move_to_end, get-append, get-here, pop-get,
  move_to_end-put, Unique,
}
use codex_shim.Cache.State.{
  FilePath, File, Cache, Host, empty_cache, remember, trim, touch, note_disk,
  max_cached_responses_per_session,
}
use codex_shim.Cache.Index.{ensure_index}
use codex_shim.Cache.Store.{
  get_items, atomic_write, put_items, latest, last_of_session, prune_until,
}
use codex_shim.Cache.Invariant.{
  IsConsistent, indexed, remember-IsConsistent, note_disk-IsConsistent,
}
use codex_shim.Cache.Rebuild.{ensure_index-IsConsistent}
use codex_shim.Cache.Eviction.{evict_bytes-bound}
use codex_shim.Cache.Methods.{
  get_items-IsConsistent, put_items-IsConsistent, latest-IsConsistent, prune_until-IsConsistent,
  evict_within_sessions, evict_within_bytes, evict-IsConsistent, atomic_write-IsConsistent,
}

-- A call of a method.
pub data Call (A : Type 0) : Type 0 where
  call_get : Text → Text → Call A
  call_put : ℕ → Text → Text → List A → Bool → Call A
  call_latest : Text → Call A
  call_prune : ℕ → Call A

last_of_session-append :
    (s : Text) (k : Key) (n : ℕ) (d : Dict Key ℕ)
    → text_eq k.session s ≡ true
    → last_of_session s (d ++ (k, n) ∷ []) ≡ some k
unfolding last_of_session
last_of_session-append s k n [] same = rw same refl
last_of_session-append s k n ((j, m) ∷ d) same = rw (last_of_session-append s k n d same) refl

module _ {A : Type 0} where
  unfoldable pub perform : Host A → Call A → Cache A → Cache A
  unfolding get_items put_items latest prune_until
  perform h (call_get s r) c = (get_items h s r c).0
  perform h (call_put now s r items terminal) c = put_items h now s r items terminal c
  perform h (call_latest s) c = (latest h s c).0
  perform h (call_prune limit) c = (prune_until h limit c).0

  unfoldable pub perform_all : Host A → List (Call A) → Cache A → Cache A
  unfolding perform
  perform_all h [] c = c
  perform_all h (call ∷ calls) c = perform_all h calls (perform h call c)

  perform-IsConsistent :
      (h : Host A) (call : Call A) (c : Cache A) → IsConsistent c → IsConsistent (perform h call c)
  unfolding perform
  perform-IsConsistent h (call_get s r) c i = get_items-IsConsistent h s r c i
  perform-IsConsistent h (call_put now s r items terminal) c i =
      put_items-IsConsistent h now s r items terminal c i
  perform-IsConsistent h (call_latest s) c i = latest-IsConsistent h s c i
  perform-IsConsistent h (call_prune limit) c i = prune_until-IsConsistent h limit c i

  perform_all_keeps :
      (h : Host A) (calls : List (Call A)) (c : Cache A)
      → IsConsistent c
      → IsConsistent (perform_all h calls c)
  unfolding perform_all
  perform_all_keeps h [] c i = i
  perform_all_keeps h (call ∷ calls) c i =
      perform_all_keeps h calls (perform h call c) (perform-IsConsistent h call c i)

  start-IsConsistent :
      (limit : ℕ) (files : Dict FilePath (File A))
      → Unique files
      → IsConsistent (empty_cache limit files)
  unfolding get sum_of
  start-IsConsistent limit files u = record {
    memory_unique = tt;
    memory_bound = omega arith;
    disk_unique = tt;
    bytes = refl;
    counts = λ s. refl;
    counts_unique = tt;
    counts_live = λ s e. cc;
    files_unique = u;
  }

  -- After any calls of `get`, `put`, `latest` and `prune_until`, on a cache that is opened over any
  -- files, the byte total is the sum of the indexed sizes, each session's counter is the number of
  -- its entries, no key is indexed twice, and memory holds at most its maximum of snapshots.
  pub perform_all-IsConsistent :
      (h : Host A) (limit : ℕ) (files : Dict FilePath (File A)) (calls : List (Call A))
      → Unique files
      → IsConsistent (perform_all h calls (empty_cache limit files))
  perform_all-IsConsistent h limit files calls u =
      perform_all_keeps h calls (empty_cache limit files) (start-IsConsistent limit files u)

  pub record IsWithinLimits (h : Host A) (c : Cache A) : Type 0 where
    pub disk_limit : c.disk_bytes ≤ h.max_cache_bytes
    pub session_limit : (s : Text) → indexed s c.disk ≤ max_cached_responses_per_session
    pub memory_limit : length c.memory ≤ c.max_memory_entries

  -- Storing a terminal snapshot, with an id and items, in a consistent cache leaves the indexed
  -- bytes within the limit, each session within 1024 responses and memory within its maximum.
  pub put_items-IsWithinLimits :
      (h : Host A) (now : ℕ) (s r : Text) (items : List A) (c : Cache A)
      → IsConsistent c
      → is_empty r ≡ false
      → is_empty items ≡ false
      → IsWithinLimits h (put_items h now s r items true c)
  unfolding put_items
  put_items-IsWithinLimits h now s r items c i named some_items =
      let key : Key = record { session = s; response = r } in
      let written = atomic_write h now key items (ensure_index (remember key items c)) in
      let noted = note_disk key (h.encoded_size items) written in
      let j : IsConsistent noted = note_disk-IsConsistent key (h.encoded_size items) written (
        atomic_write-IsConsistent h now key items (ensure_index (remember key items c)) (
          ensure_index-IsConsistent (remember key items c)
            (remember-IsConsistent key items c i))) in
      rw (named, some_items)
        (record {
          disk_limit = evict_within_bytes h noted j;
          session_limit = evict_within_sessions h noted j;
          memory_limit = (evict-IsConsistent h noted j).memory_bound;
        })

  -- `prune_until` on a consistent cache brings the indexed bytes within the given limit.
  pub prune_until-bound :
      (h : Host A) (limit : ℕ) (c : Cache A)
      → IsConsistent c
      → (prune_until h limit c).0.disk_bytes ≤ limit
  unfolding prune_until
  prune_until-bound h limit c i =
      evict_bytes-bound h (length (ensure_index c).disk) limit (ensure_index c)
        (ensure_index-IsConsistent c i) (omega arith)

  -- The newest entry is the last that a trim would drop.
  get-trim :
      (n : ℕ) (k : Key) (v : List A) (m : Dict Key (List A))
      → 0 < n
      → get k m ≡ none
      → get k (trim n (m ++ (k, v) ∷ [])) ≡ some v
  unfolding get trim
  get-trim n k v [] pos absent = ground (arith, key_eq_iff k k)
  get-trim n k v ((j, w) ∷ m) pos absent =
      ground (arith, get-trim n k v m, get-append k m ((k, v) ∷ []), get-here k v)

  get-remember :
      (key : Key) (items : List A) (c : Cache A)
      → 0 < c.max_memory_entries
      → get key (remember key items c).memory ≡ some items
  unfolding remember
  get-remember key items c pos =
      rw (move_to_end-put key items c.memory)
        (get-trim c.max_memory_entries key items (pop key c.memory) pos (pop-get key c.memory))

  -- A snapshot in memory is what `get` returns.
  get_items-hit :
      (h : Host A) (s r : Text) (items : List A) (c : Cache A)
      → is_empty r ≡ false
      → get (record { session = s; response = r }) c.memory ≡ some items
      → (get_items h s r c).1 ≡ some items
  unfolding get_items
  get_items-hit h s r items c named hit = rw (named, hit) refl

  -- A non-terminal snapshot with an id and items is what `get` returns next, if memory has room for
  -- one snapshot.
  pub get_items-put_items :
      (h : Host A) (now : ℕ) (s r : Text) (items : List A) (c : Cache A)
      → 0 < c.max_memory_entries
      → is_empty r ≡ false
      → is_empty items ≡ false
      → (get_items h s r (put_items h now s r items false c)).1 ≡ some items
  unfolding put_items
  get_items-put_items h now s r items c pos named some_items =
      get_items-hit h s r items _ named
        (rw (named, some_items) (get-remember (record { session = s; response = r }) items c pos))

  get_items-touch :
      (h : Host A) (s r : Text) (items : List A) (c : Cache A)
      → is_empty r ≡ false
      → get (record { session = s; response = r }) c.memory ≡ some items
      → (get_items h s r c).0 ≡ touch (record { session = s; response = r }) c
  unfolding get_items
  get_items-touch h s r items c named hit = rw (named, hit) refl

  last_touched :
      (s r : Text) (n : ℕ) (c : Cache A)
      → get (record { session = s; response = r }) c.disk ≡ some n
      → last_of_session s (move_to_end (record { session = s; response = r }) c.disk)
        ≡ some (record { session = s; response = r })
  unfolding move_to_end
  last_touched s r n c here =
      let key : Key = record { session = s; response = r } in
      rw (here, move_to_end)
        (last_of_session-append s key n (pop key c.disk) ((text_eq_iff s s).1 refl))

  latest-last :
      (h : Host A) (s : Text) (key : Key) (c : Cache A)
      → c.index_loaded ≡ true
      → is_empty s ≡ false
      → last_of_session s c.disk ≡ some key
      → latest h s c ≡ get_items h s key.response c
  unfolding latest
  latest-last h s key c loaded named found =
      let same : ensure_index c ≡ c = unfold ensure_index in rw loaded refl in
      let found' : last_of_session s (ensure_index c).disk ≡ some key = rw same found in
      rw (named, found') (ap (get_items h s key.response) same)

  -- With the index loaded, a snapshot in memory and in the index that is read again is what
  -- `latest` then returns for its session, whatever other snapshots the cache holds.
  pub latest-get_items :
      (h : Host A) (s r : Text) (items : List A) (n : ℕ) (c : Cache A)
      → c.index_loaded ≡ true
      → is_empty s ≡ false
      → is_empty r ≡ false
      → get (record { session = s; response = r }) c.memory ≡ some items
      → get (record { session = s; response = r }) c.disk ≡ some n
      → (latest h s (get_items h s r c).0).1 ≡ some items
  latest-get_items h s r items n c loaded session_named named hit indexed_as =
      let key : Key = record { session = s; response = r } in
      ap (λ (d : Cache A). (latest h s d).1) (get_items-touch h s r items c named hit)
      ∙ ap (λ (p : Cache A × Option (List A)). p.1)
          (latest-last h s key (touch key c) (unfold touch in loaded) session_named
            (unfold touch in last_touched s r n c indexed_as))
      ∙ get_items-hit h s r items (touch key c) named
          (unfold touch in (get-move_to_end key key c.memory ∙ hit))
