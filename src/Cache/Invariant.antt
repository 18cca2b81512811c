-- ===== src/Cache/Invariant.antt =====
-- The bookkeeping of the cache: what every method keeps.
use codex_shim.Prelude.{
  ℕ, ◌+◌, ◌-◌, ◌≤◌, ◌≡◌, ◌≢◌, refl, ap, sym, ◌∙◌, Option, none, some, List, [], ◌∷◌, ◌++◌, Text,
  Key, Key-Eq, Text-Eq, text_eq, text_eq_iff, arith, ltb, leb, length, inl, inr, Bool-cases,
  if◌then◌else◌,
}
use codex_shim.Prelude.Dict.{
  Dict, get, pop, put, move_to_end, get-pop, get-put, Unique, pop-Unique, put-Unique, pop-get,
  pop_absent, last-Unique, move_to_end-Unique, share, sum_of, sum_of-pop, sum_of-last,
  move_to_end-put, sum_of-move_to_end, length-move_to_end, length-pop-le,
}
use codex_shim.Cache.State.{
  Cache, Host, entry_path, or_zero, count_up, count_down, note_count, remember, trim, touch,
  note_disk, drop_disk,
}

abbrev pub size_of : Key → ℕ → ℕ
size_of key n = n

-- 1 for the keys of a session
abbrev pub in_session : Text → Key → ℕ → ℕ
in_session session key n = if text_eq key.session session then 1 else 0

-- How many indexed responses a session has.
abbrev pub indexed : Text → Dict Key ℕ → ℕ
indexed session disk = sum_of (in_session session) disk

-- The index agrees with itself: no key twice, the byte total is the sum of the sizes, each session's
-- counter is the number of its entries, no counter is 0, memory is within its bound, and a path
-- names one file.
pub record IsConsistent {A : Type 0} (c : Cache A) : Type 0 where
  pub memory_unique : Unique c.memory
  pub memory_bound : length c.memory ≤ c.max_memory_entries
  pub disk_unique : Unique c.disk
  pub bytes : c.disk_bytes ≡ sum_of size_of c.disk
  pub counts : (session : Text) → or_zero (get session c.session_counts) ≡ indexed session c.disk
  pub counts_unique : Unique c.session_counts
  pub counts_live : (session : Text) → get session c.session_counts ≢ some 0
  pub files_unique : Unique c.files

module _ {A : Type 0} where
  trim-length : (n : ℕ) (m : Dict Key (List A)) → length (trim n m) ≤ n
  unfolding trim
  trim-length n [] = omega arith
  trim-length n (e ∷ m) = ground (arith, trim-length n m)

  trim-Unique : (n : ℕ) (m : Dict Key (List A)) → Unique m → Unique (trim n m)
  unfolding trim
  trim-Unique n [] u = tt
  trim-Unique n ((k, v) ∷ m) u = elim (Bool-cases (ltb n (length ((k, v) ∷ m)))) [
    | inl over ↦ rw over (trim-Unique n m u.1)
    | inr fits ↦ rw fits u
  ]

  pub remember-IsConsistent :
      (key : Key) (items : List A) (c : Cache A)
      → IsConsistent c
      → IsConsistent (remember key items c)
  unfolding remember
  remember-IsConsistent key items c i = record {
    memory_unique =
        trim-Unique _ (move_to_end key (put key items c.memory))
          (move_to_end-Unique key _ (put-Unique key items c.memory i.memory_unique));
    memory_bound = trim-length c.max_memory_entries (move_to_end key (put key items c.memory));
    disk_unique = i.disk_unique;
    bytes = i.bytes;
    counts = i.counts;
    counts_unique = i.counts_unique;
    counts_live = i.counts_live;
    files_unique = i.files_unique;
  }

  pub touch-IsConsistent : (key : Key) (c : Cache A) → IsConsistent c → IsConsistent (touch key c)
  unfolding touch
  touch-IsConsistent key c i = record {
    memory_unique = move_to_end-Unique key c.memory i.memory_unique;
    memory_bound = omega (arith, i.memory_bound, length-move_to_end key c.memory i.memory_unique);
    disk_unique = move_to_end-Unique key c.disk i.disk_unique;
    bytes = i.bytes ∙ sym (sum_of-move_to_end size_of key c.disk i.disk_unique);
    counts = λ session.
        i.counts session ∙ sym (sum_of-move_to_end (in_session session) key c.disk i.disk_unique);
    counts_unique = i.counts_unique;
    counts_live = i.counts_live;
    files_unique = i.files_unique;
  }

share-size_of : (key : Key) (old : Option ℕ) → share size_of key old ≡ or_zero old
share-size_of key none = refl
share-size_of key (some n) = refl

pub get-count_up :
    (t s : Text) (counts : Dict Text ℕ)
    → or_zero (get s (count_up t counts)) ≡ or_zero (get s counts) + (if text_eq t s then 1 else 0)
get-count_up t s counts =
    ground (arith, get-put t s (or_zero (get t counts) + 1) counts, text_eq_iff t s)

get-count_down :
    (t s : Text) (counts : Dict Text ℕ)
    → or_zero (get s (count_down t counts))
      ≡ or_zero (get s counts) - (if text_eq t s then 1 else 0)
get-count_down t s counts =
    ground
      (arith, get-put t s (or_zero (get t counts) - 1) counts, get-pop t s counts, text_eq_iff t s)

pub count_up-live :
    (t : Text) (counts : Dict Text ℕ)
    → ((s : Text) → get s counts ≢ some 0)
    → (s : Text) → get s (count_up t counts) ≢ some 0
count_up-live t counts live s =
    ground (arith, get-put t s (or_zero (get t counts) + 1) counts, live s)

count_down-live :
    (t : Text) (counts : Dict Text ℕ)
    → ((s : Text) → get s counts ≢ some 0)
    → (s : Text) → get s (count_down t counts) ≢ some 0
count_down-live t counts live s =
    ground (arith, get-put t s (or_zero (get t counts) - 1) counts, get-pop t s counts, live s)

count_down-Unique : (t : Text) (counts : Dict Text ℕ) → Unique counts → Unique (count_down t counts)
count_down-Unique t counts u = elim (Bool-cases (leb (or_zero (get t counts)) 1)) [
  | inl small ↦ rw small (pop-Unique t counts u)
  | inr big ↦ rw big (put-Unique t (or_zero (get t counts) - 1) counts u)
]

get-note_count :
    (old : Option ℕ) (key : Key) (session : Text) (counts : Dict Text ℕ)
    → or_zero (get session (note_count old key.session counts)) + share (in_session session) key old
      ≡ or_zero (get session counts) + (if text_eq key.session session then 1 else 0)
get-note_count none key session counts = omega (arith, get-count_up key.session session counts)
get-note_count (some n) key session counts = refl

note_count-Unique :
    (old : Option ℕ) (s : Text) (counts : Dict Text ℕ)
    → Unique counts
    → Unique (note_count old s counts)
note_count-Unique none s counts u = put-Unique s (or_zero (get s counts) + 1) counts u
note_count-Unique (some n) s counts u = u

note_count-live :
    (old : Option ℕ) (t : Text) (counts : Dict Text ℕ)
    → ((s : Text) → get s counts ≢ some 0)
    → (s : Text) → get s (note_count old t counts) ≢ some 0
note_count-live none t counts live = count_up-live t counts live
note_count-live (some n) t counts live = live

module _ {A : Type 0} where
  -- The entry is written anew at the end of the index.
  pub disk-note_disk :
      (key : Key) (size : ℕ) (c : Cache A)
      → (note_disk key size c).disk ≡ pop key c.disk ++ (key, size) ∷ []
  unfolding note_disk
  disk-note_disk key size c =
      move_to_end-put key size (pop key c.disk)
      ∙ ap (λ d. d ++ (key, size) ∷ []) (pop_absent key (pop key c.disk) (pop-get key c.disk))

  bytes-note_disk :
      (key : Key) (size : ℕ) (c : Cache A)
      → IsConsistent c
      → (note_disk key size c).disk_bytes ≡ sum_of size_of (note_disk key size c).disk
  bytes-note_disk key size c i = rw (disk-note_disk key size c) (
      unfold note_disk in
      omega (
        arith,
        i.bytes,
        share-size_of key (get key c.disk),
        sum_of-pop size_of key c.disk i.disk_unique,
        sum_of-last size_of key size c.disk i.disk_unique,
      ))

  counts-note_disk :
      (key : Key) (size : ℕ) (c : Cache A)
      → IsConsistent c
      → (session : Text)
      → or_zero (get session (note_disk key size c).session_counts)
        ≡ indexed session (note_disk key size c).disk
  counts-note_disk key size c i session = rw (disk-note_disk key size c) (
      unfold note_disk in
      omega (
        arith,
        i.counts session,
        get-note_count (get key c.disk) key session c.session_counts,
        sum_of-last (in_session session) key size c.disk i.disk_unique,
      ))

  pub note_disk-IsConsistent :
      (key : Key) (size : ℕ) (c : Cache A) → IsConsistent c → IsConsistent (note_disk key size c)
  note_disk-IsConsistent key size c i = record {
    memory_unique = unfold note_disk in i.memory_unique;
    memory_bound = unfold note_disk in i.memory_bound;
    disk_unique = rw (disk-note_disk key size c) (last-Unique key size c.disk i.disk_unique);
    bytes = bytes-note_disk key size c i;
    counts = counts-note_disk key size c i;
    counts_unique =
        unfold note_disk in
        note_count-Unique (get key c.disk) key.session c.session_counts i.counts_unique;
    counts_live =
        unfold note_disk in
        note_count-live (get key c.disk) key.session c.session_counts i.counts_live;
    files_unique = unfold note_disk in i.files_unique;
  }

  pub drop_disk-IsConsistent :
      (h : Host A) (key : Key) (n : ℕ) (c : Cache A)
      → get key c.disk ≡ some n
      → IsConsistent c
      → IsConsistent (drop_disk h key c)
  unfolding drop_disk
  drop_disk-IsConsistent h key n c here i = record {
    memory_unique = pop-Unique key c.memory i.memory_unique;
    memory_bound = omega (arith, i.memory_bound, length-pop-le key c.memory);
    disk_unique = pop-Unique key c.disk i.disk_unique;
    bytes = omega (
      arith,
      i.bytes,
      share-size_of key (get key c.disk),
      sum_of-pop size_of key c.disk i.disk_unique,
    );
    counts = λ session. omega (
      arith,
      i.counts session,
      get-count_down key.session session c.session_counts,
      ap (share (in_session session) key) here,
      sum_of-pop (in_session session) key c.disk i.disk_unique,
    );
    counts_unique = count_down-Unique key.session c.session_counts i.counts_unique;
    counts_live = count_down-live key.session c.session_counts i.counts_live;
    files_unique = pop-Unique (entry_path h key) c.files i.files_unique;
  }
