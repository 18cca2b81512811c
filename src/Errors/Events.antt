-- ===== src/Errors/Events.antt =====
-- `chat_chunk_upstream_error` of codex_shim/net/errors.py: errors inside a stream.
use codex_shim.Prelude.{List, [], ◌∷◌, ◌++◌, Text, codes, text_eq, mem, strip, if◌then◌else◌}
use codex_shim.Json.{Json, null, str, arr, obj, cons, truthy}
use codex_shim.Pipeline.Ids.{text_of}
use codex_shim.Errors.{Python, value_of}
use codex_shim.Errors.Upstream.{CodeMessage, parse_upstream_error}

-- `choices` that cannot be indexed raise.
pub data ChunkError : Type 0 where
  no_error raises : ChunkError
  upstream_error : CodeMessage → ChunkError

abbrev pub upstream_failure_finish_reasons : List Text
upstream_failure_finish_reasons =
    codes "error"
    ∷ codes "network_error"
    ∷ codes "provider_error"
    ∷ codes "internal_error"
    ∷ codes "unknown_error"
    ∷ []

module _ (py : Python) where
  -- str(value or "").strip().lower()
  abbrev pub reason_of : Json → Text
  reason_of v = py.lower (strip (if truthy v then text_of py.py_str v else []))

  abbrev pub finished_with : Text → ChunkError
  finished_with reason = upstream_error (reason, codes "Upstream finished with " ++ reason)

  -- the finish reasons of a choice
  unfoldable pub choice_error : Json → ChunkError
  unfolding value_of strip mem text_eq
  choice_error (obj choice) =
      let native = reason_of (value_of (codes "native_finish_reason") choice) in
      let finish = reason_of (value_of (codes "finish_reason") choice) in
      if mem native upstream_failure_finish_reasons
      then finished_with native
      else if mem finish upstream_failure_finish_reasons
      then finished_with finish
      else no_error
  choice_error _ = no_error

  -- (chunk.get("choices") or [None])[0]
  abbrev pub choices_error : Json → ChunkError
  choices_error (arr (cons choice choices)) = choice_error choice
  choices_error (str t) = no_error
  choices_error v = if truthy v then raises else no_error

  unfoldable pub chat_chunk_upstream_error : Json → ChunkError
  unfolding value_of parse_upstream_error choice_error
  chat_chunk_upstream_error (obj chunk) = elim (value_of (codes "error") chunk) [
    | null ↦ choices_error (value_of (codes "choices") chunk)
    | err ↦ upstream_error (parse_upstream_error py (py.dumps (obj chunk)) 502)
  ]
  chat_chunk_upstream_error _ = no_error
