-- ===== src/Cache/Rebuild.antt =====
-- The index that `_ensure_index_locked` rebuilds agrees with the files.
use codex_shim.Prelude.{
  ℕ, ◌+◌, ◌≤◌, ◌≡◌, refl, ap, ◌∙◌, Bool, true, false, Option, none, some, List, [], ◌∷◌, ◌++◌, Text,
  codes, Key, Key-Eq, Text-Eq, key_eq, key_eq_iff, text_eq, text_eq_iff, arith, inl, inr,
  Bool-cases, Option-cases, if◌then◌else◌,
}
use codex_shim.Prelude.Dict.{Dict, get, put, Unique, put-Unique, share, sum_of, sum_of-put, get-put}
use codex_shim.Cache.State.{FilePath, File, Cache}
use codex_shim.Cache.Index.{
  Entry, strip_suffix, insert_by_mtime, sort_by_mtime, scan, index_entries, rebuild, rebuild_unless,
  ensure_index,
}
use codex_shim.Cache.Invariant.{IsConsistent, size_of, in_session, get-count_up, count_up-live}

-- How often a key stands among the entries.
occurrences : Key → List Entry → ℕ
occurrences k [] = 0
occurrences k (e ∷ l) = (if key_eq e.1 k then 1 else 0) + occurrences k l

occurrences-insert :
    (k : Key) (e : Entry) (l : List Entry)
    → occurrences k (insert_by_mtime e l) ≡ occurrences k (e ∷ l)
unfolding occurrences insert_by_mtime
occurrences-insert k e [] = refl
occurrences-insert k e (f ∷ l) = ground (arith, occurrences-insert k e l)

occurrences-sort : (k : Key) (l : List Entry) → occurrences k (sort_by_mtime l) ≡ occurrences k l
unfolding occurrences sort_by_mtime
occurrences-sort k [] = refl
occurrences-sort k (e ∷ l) =
    omega (arith, occurrences-insert k e (sort_by_mtime l), occurrences-sort k l)

strip_suffix-append :
    (suffix name stem : Text) → strip_suffix suffix name ≡ some stem → name ≡ stem ++ suffix
unfolding strip_suffix
strip_suffix-append suffix [] stem h = ground (arith, text_eq_iff [] suffix)
strip_suffix-append suffix (a ∷ name) stem h = elim (Bool-cases (text_eq (a ∷ name) suffix)) [
  | inl whole ↦ ground (arith, text_eq_iff (a ∷ name) suffix)
  | inr more ↦ elim (Option-cases (strip_suffix suffix name)) [
    | inl miss ↦ ground arith
    | inr (rest, found) ↦
        let e : some (a ∷ rest) ≡ some stem = rw (more, found) at h in
        cc (strip_suffix-append suffix name rest found)
  ]
]

path_of : Key → FilePath
path_of k = record { session = k.session; response = k.response ++ codes ".json" }

named :
    (k : Key) (path : FilePath) (stem : Text)
    → path.response ≡ stem ++ codes ".json"
    → key_eq (record { session = path.session; response = stem }) k ≡ true
    → key_eq path (path_of k) ≡ true
unfolding path_of
named k path stem split same =
    let e = (key_eq_iff (record { session = path.session; response = stem }) k).0 same in
    (key_eq_iff path (path_of k)).1 λ i. record {
      session = (e i).session;
      response = (split ∙ ap (λ (x : Key). x.response ++ codes ".json") e) i;
    }

-- Keys still to be indexed are not in the index yet.
abbrev Fresh : List Entry → Dict Key ℕ → Type 0
Fresh l disk = (k : Key) → occurrences k l + share (λ k n. 1) k (get k disk) ≤ 1

Fresh-head :
    (e : Entry) (l : List Entry) (disk : Dict Key ℕ) → Fresh (e ∷ l) disk → get e.1 disk ≡ none
unfolding occurrences
Fresh-head e l disk f = ground (arith, f e.1, key_eq_iff e.1 e.1)

Fresh-tail :
    (e : Entry) (l : List Entry) (disk : Dict Key ℕ)
    → Fresh (e ∷ l) disk
    → Fresh l (put e.1 e.2 disk)
unfolding occurrences
Fresh-tail e l disk f k =
    ground (arith, f k, Fresh-head e l disk f, get-put e.1 k e.2 disk, key_eq_iff e.1 k)

module _ {A : Type 0} where
  present : Key → Dict FilePath (File A) → ℕ
  present k files = share (λ p f. 1) (path_of k) (get (path_of k) files)

  -- At the path of the key the rest of the directory has no file; elsewhere it decides.
  present-cons :
      (k : Key) (path : FilePath) (file : File A) (files : Dict FilePath (File A))
      → Unique ((path, file) ∷ files)
      → present k ((path, file) ∷ files)
        ≡ (if key_eq path (path_of k) then 1 else 0) + present k files
  unfolding present get
  present-cons k path file files u = elim (Bool-cases (key_eq path (path_of k))) [
    | inr ne ↦ rw ne (omega arith)
    | inl same ↦
        let at : path ≡ path_of k = (key_eq_iff path (path_of k)).0 same in
        let gone : get (path_of k) files ≡ none = rw (← at) u.0 in rw (same, gone) (omega arith)
  ]

  occurrences-scan :
      (k : Key) (files : Dict FilePath (File A))
      → Unique files
      → occurrences k (scan files) ≤ present k files
  unfolding occurrences scan
  occurrences-scan k [] u = omega arith
  occurrences-scan k ((path, file) ∷ files) u =
      elim (Option-cases (strip_suffix (codes ".json") path.response)) [
        | inl other ↦
            rw (other, scan)
              (omega (arith, present-cons k path file files u, occurrences-scan k files u.1))
        | inr (stem, found) ↦
            rw (found, scan)
              (ground (
                arith,
                present-cons k path file files u,
                occurrences-scan k files u.1,
                named k path stem (strip_suffix-append (codes ".json") path.response stem found),
              ))
      ]

  index_entries-IsConsistent :
      (l : List Entry) (c : Cache A)
      → Fresh l c.disk
      → IsConsistent c
      → IsConsistent (index_entries l c)
  unfolding index_entries
  index_entries-IsConsistent [] c f i = i
  index_entries-IsConsistent ((m, key, size) ∷ l) c f i =
      let gone = Fresh-head (m, key, size) l c.disk f in
      let fresh = Fresh-tail (m, key, size) l c.disk f in
      index_entries-IsConsistent l _ fresh (record {
        memory_unique = i.memory_unique;
        memory_bound = i.memory_bound;
        disk_unique = put-Unique key size c.disk i.disk_unique;
        bytes = omega (arith, i.bytes, sum_of-put size_of key size c.disk gone);
        counts = λ s. omega (
          arith,
          i.counts s,
          get-count_up key.session s c.session_counts,
          sum_of-put (in_session s) key size c.disk gone,
        );
        counts_unique = put-Unique key.session _ c.session_counts i.counts_unique;
        counts_live = count_up-live key.session c.session_counts i.counts_live;
        files_unique = i.files_unique;
      })

  share-le-one : (k : Key) (found : Option (File A)) → share (λ p f. 1) k found ≤ 1
  share-le-one k none = omega arith
  share-le-one k (some f) = omega arith

  start-Fresh :
      (files : Dict FilePath (File A)) → Unique files → Fresh (sort_by_mtime (scan files)) []
  unfolding get present
  start-Fresh files u k = omega (
    arith,
    occurrences-sort k (scan files),
    occurrences-scan k files u,
    share-le-one (path_of k) (get (path_of k) files),
  )

  marked : (c : Cache A) → IsConsistent c → IsConsistent (record c { index_loaded = true })
  marked c i = record {
    memory_unique = i.memory_unique;
    memory_bound = i.memory_bound;
    disk_unique = i.disk_unique;
    bytes = i.bytes;
    counts = i.counts;
    counts_unique = i.counts_unique;
    counts_live = i.counts_live;
    files_unique = i.files_unique;
  }

  pub rebuild-IsConsistent : (c : Cache A) → IsConsistent c → IsConsistent (rebuild c)
  unfolding rebuild sum_of get
  rebuild-IsConsistent c i =
      let cleared = record c { disk = []; disk_bytes = 0; session_counts = [] } in
      marked (index_entries (sort_by_mtime (scan c.files)) cleared) (
        index_entries-IsConsistent (sort_by_mtime (scan c.files)) cleared
          (start-Fresh c.files i.files_unique)
          (record {
            memory_unique = i.memory_unique;
            memory_bound = i.memory_bound;
            disk_unique = tt;
            bytes = refl;
            counts = λ s. refl;
            counts_unique = tt;
            counts_live = λ s e. cc;
            files_unique = i.files_unique;
          }))

  rebuild_unless-IsConsistent :
      (b : Bool) (c : Cache A) → IsConsistent c → IsConsistent (rebuild_unless b c)
  rebuild_unless-IsConsistent true c i = i
  rebuild_unless-IsConsistent false c i = rebuild-IsConsistent c i

  -- `_ensure_index_locked` leaves a consistent cache consistent: where the index was not loaded,
  -- the index that it builds from the files is right, whatever files lie below the root.
  pub ensure_index-IsConsistent : (c : Cache A) → IsConsistent c → IsConsistent (ensure_index c)
  unfolding ensure_index
  ensure_index-IsConsistent c i = rebuild_unless-IsConsistent c.index_loaded c i
