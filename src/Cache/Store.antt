-- ===== src/Cache/Store.antt =====
-- The methods of `ChatgptConversationCache`.
use codex_shim.Prelude.{
  ℕ, zero, suc, Bool, true, false, not, ◌||◌, Option, none, some, List, [], ◌∷◌, Text, Key, Key-Eq,
  Text-Eq, text_eq, ltb, length, is_empty, if◌then◌else◌,
}
use codex_shim.Prelude.Dict.{Dict, get, put}
use codex_shim.Cache.State.{
  File, Cache, Host, or_zero, max_cached_responses_per_session, entry_path, remember, touch,
  note_disk, drop_disk,
}
use codex_shim.Cache.Index.{ensure_index}

-- next((key for key in self._disk if key[0] == session_key), None)
unfoldable pub first_of_session : Text → Dict Key ℕ → Option Key
first_of_session session [] = none
first_of_session session ((key, size) ∷ d) =
    if text_eq key.session session then some key else first_of_session session d

-- for key in reversed(self._disk): the last key of the session
unfoldable pub last_of_session {κ} : {V : Type κ} → Text → Dict Key V → Option Key
last_of_session session [] = none
last_of_session session ((key, v) ∷ d) = elim (last_of_session session d) [
  | some later ↦ some later
  | none ↦ if text_eq key.session session then some key else none
]

pub record Stats : Type 0 where
  pub session_dirs : ℕ
  pub file_count : ℕ
  pub total_bytes : ℕ
  pub max_bytes : ℕ
  pub read_cache_entries : ℕ

module _ {A : Type 0} where
  -- while count > _MAX_CACHED_RESPONSES_PER_SESSION; each round drops an entry of `disk`
  unfoldable pub evict_session : Host A → ℕ → Text → ℕ → Cache A → Cache A
  evict_session h zero session count c = c
  evict_session h (suc fuel) session count c = elim (ltb max_cached_responses_per_session count) [
    | false ↦ c
    | true ↦ elim (first_of_session session c.disk) [
      | none ↦ c
      | some victim ↦
          let c' = drop_disk h victim c in
          evict_session h fuel session (or_zero (get session c'.session_counts)) c'
    ]
  ]

  -- for session_key, count in list(self._session_counts.items())
  unfoldable pub evict_sessions : Host A → List (Text × ℕ) → Cache A → Cache A
  evict_sessions h [] c = c
  evict_sessions h ((session, count) ∷ rest) c =
      evict_sessions h rest (evict_session h (length c.disk) session count c)

  -- while self._disk_bytes > limit and self._disk: drop the first entry
  unfoldable pub evict_bytes : Host A → ℕ → ℕ → Cache A → Cache A
  evict_bytes h zero limit c = c
  evict_bytes h (suc fuel) limit c = elim (ltb limit c.disk_bytes) [
    | false ↦ c
    | true ↦ elim c.disk [ [] ↦ c | e ∷ d ↦ evict_bytes h fuel limit (drop_disk h e.0 c) ]
  ]

  -- _evict_locked
  unfoldable pub evict : Host A → Cache A → Cache A
  evict h c =
      let c' = evict_sessions h c.session_counts c in
      evict_bytes h (length c'.disk) h.max_cache_bytes c'

  -- the rest of `get`, after a miss in memory
  unfoldable pub read_file : Key → Option (File A) → Cache A → Cache A × Option (List A)
  read_file key none c = (c, none)
  read_file key (some file) c = elim file.items [
    | none ↦ (c, none)
    | some items ↦
        let c1 = ensure_index c in
        let c2 : Cache A = elim (get key c1.disk) [
          | none ↦ note_disk key file.size c1
          | some n ↦ c1
        ] in
        if is_empty items then (c, none) else (touch key (remember key items c2), some items)
  ]

  unfoldable pub get_items : Host A → Text → Text → Cache A → Cache A × Option (List A)
  unfolding read_file
  get_items h session_key response_id c =
      let key : Key = record { session = session_key; response = response_id } in
      let found : Cache A × Option (List A) = elim (get key c.memory) [
        | some cached ↦ (touch key c, some cached)
        | none ↦ read_file key (get (entry_path h key) c.files) c
      ] in
      if is_empty response_id then (c, none) else found

  -- _atomic_write; `now` is the clock of the file system
  unfoldable pub atomic_write : Host A → ℕ → Key → List A → Cache A → Cache A
  atomic_write h now key items c = record c {
    files =
        put (entry_path h key)
          (record { items = some items; size = h.encoded_size items; mtime = now }) c.files;
  }

  unfoldable pub put_items : Host A → ℕ → Text → Text → List A → Bool → Cache A → Cache A
  put_items h now session_key response_id items terminal c =
      let key : Key = record { session = session_key; response = response_id } in
      let remembered = remember key items c in
      let written = atomic_write h now key items (ensure_index remembered) in
      let stored = evict h (note_disk key (h.encoded_size items) written) in
      if is_empty response_id || is_empty items
      then c
      else if not terminal
      then remembered
      else stored

  unfoldable pub latest : Host A → Text → Cache A → Cache A × Option (List A)
  latest h session_key c =
      let c' = ensure_index c in
      let found : Cache A × Option (List A) = elim (last_of_session session_key c'.disk) [
        | some key ↦ get_items h session_key key.response c'
        | none ↦ (
          c',
          elim (last_of_session session_key c'.memory) [
            | none ↦ none
            | some key ↦ get key c'.memory
          ],
        )
      ] in
      if is_empty session_key then (c, none) else found

  unfoldable pub stats : Host A → Cache A → Stats
  stats h c = record {
    session_dirs = length c.session_counts;
    file_count = length c.disk;
    total_bytes = c.disk_bytes;
    max_bytes = h.max_cache_bytes;
    read_cache_entries = length c.memory;
  }

  unfoldable pub prune_until : Host A → ℕ → Cache A → Cache A × Stats
  unfolding evict_bytes stats
  prune_until h limit c =
      let c' = ensure_index c in
      let pruned = evict_bytes h (length c'.disk) limit c' in (pruned, stats h pruned)
