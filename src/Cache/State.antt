-- ===== src/Cache/State.antt =====
-- The state of `ChatgptConversationCache`: a RAM LRU over a disk LRU with an incremental index, and
-- the bookkeeping steps on it. Snapshots are values, so `copy.deepcopy` is the identity. The file
-- system is a dictionary of files; the lock makes each method one step.
use codex_shim.Prelude.{
  ℕ, ◌+◌, ◌-◌, Bool, false, Option, none, some, List, [], ◌∷◌, Text, Key, Key-Eq, Text-Eq, leb, ltb,
  length, if◌then◌else◌,
}
use codex_shim.Prelude.Dict.{Dict, get, pop, put, move_to_end}
use codex_shim.Cache.Segment.{Names, sanitize_path_segment, sanitize_response_filename}

-- A path below the root: the directory (`session`) and the file name (`response`).
abbrev pub FilePath : Type 0
FilePath = Key

-- `items` is what `get` finds in the file: `none` if it cannot be read, is no JSON object, or has
-- no list of items.
pub record File (A : Type 0) : Type 0 where
  pub items : Option (List A)
  pub size : ℕ
  pub mtime : ℕ

pub record Cache (A : Type 0) : Type 0 where
  pub max_memory_entries : ℕ
  pub memory : Dict Key (List A)
  pub disk : Dict Key ℕ
  pub disk_bytes : ℕ
  pub session_counts : Dict Text ℕ
  pub index_loaded : Bool
  pub files : Dict FilePath (File A)

-- What the class takes from its surroundings: names, the length of a file as JSON, and the
-- value of `max_cache_bytes()`.
pub record Host (A : Type 0) : Type 0 where
  pub names : Names
  pub encoded_size : List A → ℕ
  pub max_cache_bytes : ℕ

abbrev pub max_cached_responses_per_session : ℕ
max_cached_responses_per_session = 1024

abbrev pub or_zero : Option ℕ → ℕ
or_zero none = 0
or_zero (some n) = n

-- self._session_counts[session] = self._session_counts.get(session, 0) + 1
abbrev pub count_up : Text → Dict Text ℕ → Dict Text ℕ
count_up session counts = put session (or_zero (get session counts) + 1) counts

-- a key that the index did not have is counted
abbrev pub note_count : Option ℕ → Text → Dict Text ℕ → Dict Text ℕ
note_count none session counts = count_up session counts
note_count (some old) session counts = counts

-- remaining = counts.get(session, 0) - 1; pop if remaining <= 0 else store
abbrev pub count_down : Text → Dict Text ℕ → Dict Text ℕ
count_down session counts =
    let n = or_zero (get session counts) in
    if leb n 1 then pop session counts else put session (n - 1) counts

module _ {A : Type 0} where
  abbrev pub empty_cache : ℕ → Dict FilePath (File A) → Cache A
  empty_cache limit on_disk = record {
    max_memory_entries = limit;
    memory = [];
    disk = [];
    disk_bytes = 0;
    session_counts = [];
    index_loaded = false;
    files = on_disk;
  }

  -- _entry_path
  unfoldable pub entry_path : Host A → Key → FilePath
  entry_path h key = record {
    session = sanitize_path_segment h.names key.session;
    response = sanitize_response_filename h.names key.response;
  }

  -- while len(self._memory) > self._max_memory_entries: popitem(last=False)
  unfoldable pub trim : ℕ → Dict Key (List A) → Dict Key (List A)
  trim limit [] = []
  trim limit (e ∷ m) = let rest = trim limit m in if ltb limit (length (e ∷ m)) then rest else e ∷ m

  -- _remember_locked
  unfoldable pub remember : Key → List A → Cache A → Cache A
  remember key items c = record c {
    memory = trim c.max_memory_entries (move_to_end key (put key items c.memory));
  }

  -- _touch_locked
  unfoldable pub touch : Key → Cache A → Cache A
  touch key c = record c { memory = move_to_end key c.memory; disk = move_to_end key c.disk }

  -- _note_disk_locked
  unfoldable pub note_disk : Key → ℕ → Cache A → Cache A
  note_disk key size c =
      let old = get key c.disk in
      record c {
        disk = move_to_end key (put key size (pop key c.disk));
        disk_bytes = (c.disk_bytes - or_zero old) + size;
        session_counts = note_count old key.session c.session_counts;
      }

  -- _drop_disk_locked; an `OSError` of `unlink` is ignored
  unfoldable pub drop_disk : Host A → Key → Cache A → Cache A
  drop_disk h key c = record c {
    disk = pop key c.disk;
    disk_bytes = c.disk_bytes - or_zero (get key c.disk);
    memory = pop key c.memory;
    session_counts = count_down key.session c.session_counts;
    files = pop (entry_path h key) c.files;
  }
