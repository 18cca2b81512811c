-- ===== src/Tests/CacheRuns.antt =====
-- `ChatgptConversationCache` on a few snapshots.
use codex_shim.Prelude.{
  ℕ, zero, suc, ◌*◌, Key-Eq, Text-Eq, ◌≡◌, refl, ◌≤◌, ◌||◌, ◌&&◌, Bool, true, false, some, none,
  List, [], ◌∷◌, Text, codes, Key, leb, nat_eq, arith, length, All, map, text_eq,
}
use codex_shim.Prelude.Dict.{Dict, get, Unique}
use codex_shim.Cache.Segment.{Names, sanitize_path_segment}
use codex_shim.Cache.Segment.Safety.{is_hex, NamesLaws, IsSegment, sanitize_path_segment-IsSegment}
use codex_shim.Cache.State.{File, FilePath, Cache, Host, empty_cache}
use codex_shim.Cache.Index.{ensure_index}
use codex_shim.Cache.Store.{put_items, get_items, latest, prune_until}
use codex_shim.Cache.Invariant.{IsConsistent}
use codex_shim.Cache.Promises.{
  Call, call_get, call_put, call_latest, call_prune, perform_all, perform_all-IsConsistent,
  IsWithinLimits, put_items-IsWithinLimits, prune_until-bound, get_items-put_items,
  latest-get_items,
}

abbrev zeros : ℕ → Text
zeros zero = []
zeros (suc n) = b'0' ∷ zeros n

abbrev letters : Names
letters = record {
  is_word = λ c. leb b'0' c && leb c b'9' || leb b'a' c && leb c b'z' || nat_eq c b'_';
  digest = λ value. zeros 64;
}

abbrev host : Host ℕ
host = record { names = letters; encoded_size = λ items. 10 * length items; max_cache_bytes = 40 }

abbrev saved : Dict FilePath (File ℕ)
saved =
    (
      record { session = codes "s"; response = codes "r0.json" },
      record { items = some (7 ∷ []); size = 10; mtime = 3 },
    )
    ∷ []

abbrev calls : List (Call ℕ)
calls =
    call_put 5 (codes "s") (codes "r1") (1 ∷ 2 ∷ []) true
    ∷ call_get (codes "s") (codes "r0")
    ∷ call_latest (codes "s")
    ∷ call_prune 15
    ∷ []

abbrev used : Cache ℕ
used = perform_all host calls (empty_cache 2 saved)

zeros-hex : (n : ℕ) → All (λ c. is_hex c ≡ true) (zeros n)
zeros-hex zero = tt
zeros-hex (suc n) = (refl, zeros-hex n)

letters_laws : NamesLaws letters
letters_laws = record {
  slash = refl;
  backslash = refl;
  hex = λ value. record { size = refl; digits = zeros-hex 64 };
}

saved-Unique : Unique saved
saved-Unique = (unfold get in refl, tt)

used-IsConsistent : IsConsistent used
used-IsConsistent = perform_all-IsConsistent host 2 saved calls saved-Unique

-- r1 (20 bytes) is stored beside r0 (10 bytes), r0 is read, and the prune to 15 bytes drops r1.
used_keys : map (λ (e : Key × ℕ). e.0.response) used.disk ≡ codes "r0" ∷ []
unfolding codex_shim.Prelude.Dict.get codex_shim.Prelude.Dict.pop codex_shim.Prelude.Dict.put
    codex_shim.Prelude.Dict.move_to_end codex_shim.Prelude.Dict.sum_of
    codex_shim.Cache.Segment.replace_dots codex_shim.Cache.Segment.sub_unsafe
    codex_shim.Cache.Segment.clean codex_shim.Cache.Segment.sanitize_path_segment
    codex_shim.Cache.Segment.sanitize_response_filename codex_shim.Cache.State.entry_path
    codex_shim.Cache.State.trim codex_shim.Cache.State.remember codex_shim.Cache.State.touch
    codex_shim.Cache.State.note_disk codex_shim.Cache.State.drop_disk
    codex_shim.Cache.Index.strip_suffix codex_shim.Cache.Index.insert_by_mtime
    codex_shim.Cache.Index.sort_by_mtime codex_shim.Cache.Index.scan
    codex_shim.Cache.Index.index_entries codex_shim.Cache.Index.rebuild
    codex_shim.Cache.Index.ensure_index codex_shim.Cache.Store.first_of_session
    codex_shim.Cache.Store.last_of_session codex_shim.Cache.Store.evict_session
    codex_shim.Cache.Store.evict_sessions codex_shim.Cache.Store.evict_bytes
    codex_shim.Cache.Store.evict codex_shim.Cache.Store.read_file codex_shim.Cache.Store.get_items
    codex_shim.Cache.Store.atomic_write codex_shim.Cache.Store.put_items
    codex_shim.Cache.Store.latest codex_shim.Cache.Store.stats codex_shim.Cache.Store.prune_until
    codex_shim.Prelude.text_eq codex_shim.Prelude.lstrip codex_shim.Prelude.rstrip
    codex_shim.Prelude.mem codex_shim.Prelude.strip codex_shim.Cache.Promises.perform_all
    codex_shim.Cache.Promises.perform
used_keys = refl

perform_all-IsConsistent_example : IsConsistent (perform_all host calls (empty_cache 2 saved))
perform_all-IsConsistent_example = perform_all-IsConsistent host 2 saved calls saved-Unique

put_items-IsWithinLimits_example :
    IsWithinLimits host (put_items host 9 (codes "s") (codes "r2") (4 ∷ 5 ∷ []) true used)
put_items-IsWithinLimits_example =
    put_items-IsWithinLimits host 9 (codes "s") (codes "r2") (4 ∷ 5 ∷ []) used used-IsConsistent
      refl refl

prune_until-bound_example : (prune_until host 5 used).0.disk_bytes ≤ 5
prune_until-bound_example = prune_until-bound host 5 used used-IsConsistent

get_items-put_items_example :
    (get_items host
      (codes "s")
      (codes "r3")
      (put_items host 9 (codes "s") (codes "r3") (6 ∷ []) false (empty_cache 2 saved))).1
    ≡ some (6 ∷ [])
get_items-put_items_example =
    get_items-put_items host 9 (codes "s") (codes "r3") (6 ∷ []) (empty_cache 2 saved) (omega arith)
      refl refl

sanitize_path_segment-IsSegment_example : IsSegment (sanitize_path_segment letters (codes "../a b"))
sanitize_path_segment-IsSegment_example =
    sanitize_path_segment-IsSegment letters letters_laws (codes "../a b")

sanitized : sanitize_path_segment letters (codes "../a b") ≡ codes "a_b"
unfolding sanitize_path_segment
sanitized = refl

-- r1 was stored first and r2 after it; both are in memory and indexed
abbrev two_stored : Cache ℕ
two_stored = record {
  max_memory_entries = 2;
  memory =
      (record { session = codes "s"; response = codes "r1" }, 1 ∷ [])
      ∷ (record { session = codes "s"; response = codes "r2" }, 2 ∷ [])
      ∷ [];
  disk =
      (record { session = codes "s"; response = codes "r1" }, 10)
      ∷ (record { session = codes "s"; response = codes "r2" }, 10)
      ∷ [];
  disk_bytes = 20;
  session_counts = (codes "s", 2) ∷ [];
  index_loaded = true;
  files = [];
}

latest-get_items_example :
    (latest host (codes "s") (get_items host (codes "s") (codes "r1") two_stored).0).1
    ≡ some (1 ∷ [])
latest-get_items_example =
    latest-get_items host (codes "s") (codes "r1") (1 ∷ []) 10 two_stored refl refl refl
      (unfold get text_eq in refl) (unfold get text_eq in refl)

latest_stored : (latest host (codes "s") two_stored).1 ≡ some (2 ∷ [])
unfolding latest codex_shim.Cache.Store.last_of_session ensure_index text_eq get_items get
latest_stored = refl
