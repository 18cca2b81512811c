-- ===== src/Cache/Index.antt =====
-- `_ensure_index_locked`: the disk index rebuilt from the file names below the root.
use codex_shim.Prelude.{
  ℕ, ◌+◌, Bool, true, false, Option, none, some, List, [], ◌∷◌, Text, codes, Key, Key-Eq, text_eq,
  leb, if◌then◌else◌,
}
use codex_shim.Prelude.Dict.{Dict, put}
use codex_shim.Cache.State.{FilePath, File, Cache, count_up}

-- (mtime, key, size)
abbrev pub Entry : Type 0
Entry = ℕ × Key × ℕ

-- name[: -len(".json")] for the names that `glob("*.json")` gives
unfoldable pub strip_suffix : Text → Text → Option Text
strip_suffix suffix [] = if text_eq [] suffix then some [] else none
strip_suffix suffix (a ∷ name) =
    let deeper : Option Text = elim (strip_suffix suffix name) [
      | none ↦ none
      | some stem ↦ some (a ∷ stem)
    ] in
    if text_eq (a ∷ name) suffix then some [] else deeper

-- entries.sort(key=lambda item: item[0]), which is stable
unfoldable pub insert_by_mtime : Entry → List Entry → List Entry
insert_by_mtime e [] = e ∷ []
insert_by_mtime e (f ∷ l) = if leb e.0 f.0 then e ∷ f ∷ l else f ∷ insert_by_mtime e l

unfoldable pub sort_by_mtime : List Entry → List Entry
sort_by_mtime [] = []
sort_by_mtime (e ∷ l) = insert_by_mtime e (sort_by_mtime l)

module _ {A : Type 0} where
  -- the scan of the root directory: (mtime, key, size) of each `*.json` file
  unfoldable pub scan : Dict FilePath (File A) → List Entry
  scan [] = []
  scan ((path, file) ∷ files) =
      let rest = scan files in
      elim (strip_suffix (codes ".json") path.response) [
        | none ↦ rest
        | some stem ↦
            (file.mtime, record { session = path.session; response = stem }, file.size) ∷ rest
      ]

  -- self._disk[key] = size; the sums go along
  unfoldable pub index_entries : List Entry → Cache A → Cache A
  index_entries [] c = c
  index_entries ((mtime, key, size) ∷ rest) c = index_entries rest (record c {
    disk = put key size c.disk;
    disk_bytes = c.disk_bytes + size;
    session_counts = count_up key.session c.session_counts;
  })

  unfoldable pub rebuild : Cache A → Cache A
  unfolding scan sort_by_mtime insert_by_mtime index_entries strip_suffix
  rebuild c =
      let cleared = record c { disk = []; disk_bytes = 0; session_counts = [] } in
      record (index_entries (sort_by_mtime (scan c.files)) cleared) { index_loaded = true }

  abbrev pub rebuild_unless : Bool → Cache A → Cache A
  rebuild_unless true c = c
  rebuild_unless false c = rebuild c

  -- _ensure_index_locked
  unfoldable pub ensure_index : Cache A → Cache A
  unfolding rebuild
  ensure_index c = rebuild_unless c.index_loaded c
