-- ===== src/Emitters/Relay.antt =====
-- The relay of a native Responses stream in codex_shim/server.py, under a guard.
pub mod Lines
pub mod Endings
use codex_shim.Prelude.{
  Bool, true, false, Option, none, some, List, [], ◌∷◌, Text, codes, if◌then◌else◌,
}
use codex_shim.Json.{Json, obj, Fields}
use codex_shim.StreamGuard.{
  Emitter, Leaving, normally, with_disconnect, with_cancelled, with_exception, Terminal, over, gone,
  cancelled, Exit, Guard, mark_upstream_done, note_upstream_disconnect, aexit,
}
use codex_shim.Emitters.{Frame, sse, raw, Client, write_all, ChatgptRelay, observe, chatgpt_emitter}

-- A line of the upstream: the end marker, one that is no JSON, an object whose `type` is hashable, or another
-- JSON value, with the class name and the text of the exception that reading it raises.
pub data Line : Type 0 where
  done_line : Line
  other_text : Text → Line
  payload : Fields → Line
  raising : (name text : Text) → Line

-- The end of the upstream: its end of file, or a `ClientError`.
pub data Upstream : Type 0 where
  ended : Upstream
  broken : (exc : Text) → Upstream

abbrev pub after_note : Guard ChatgptRelay × Terminal → Guard ChatgptRelay × Leaving
after_note (g, over) = (g, normally)
after_note (g, gone) = (g, with_disconnect)
after_note (g, cancelled) = (g, with_cancelled)

-- await _write_sse(response, payload) and the like
unfoldable pub write_frame : Frame → ChatgptRelay → ChatgptRelay × Bool
unfolding write_all
write_frame f s =
    let (client, made) = write_all (f ∷ []) s.client in (record s { client = client }, made)

abbrev pub with_state : Guard ChatgptRelay → ChatgptRelay → Guard ChatgptRelay
with_state g s = record g { emitter = s }

module _ (fresh_id : Text) where
  -- the body of the `async with`
  unfoldable pub relay_lines :
      List Line → Upstream → Guard ChatgptRelay → Guard ChatgptRelay × Leaving
  unfolding write_frame observe note_upstream_disconnect chatgpt_emitter mark_upstream_done
  relay_lines [] ended g = (g, normally)
  relay_lines [] (broken exc) g =
      after_note (note_upstream_disconnect (chatgpt_emitter fresh_id) exc g)
  relay_lines (done_line ∷ lines) upstream g = (mark_upstream_done g, normally)
  relay_lines (other_text t ∷ lines) upstream g =
      let (s, made) = write_frame (raw t) g.emitter in
      let rest = relay_lines lines upstream (with_state g s) in
      if made then rest else (with_state g s, with_disconnect)
  relay_lines (payload d ∷ lines) upstream g =
      let (s, made) = write_frame (sse (obj d)) (observe (obj d) g.emitter) in
      let rest = relay_lines lines upstream (with_state g s) in
      if made then rest else (with_state g s, with_disconnect)
  relay_lines (raising name text ∷ lines) upstream g = (g, with_exception name text)

  unfoldable pub relay_stream :
      List Line → Upstream → Guard ChatgptRelay → Guard ChatgptRelay × Exit
  unfolding relay_lines aexit
  relay_stream lines upstream g =
      let (left, leaving) = relay_lines lines upstream g in
      aexit (chatgpt_emitter fresh_id) leaving left
