-- ===== src/StreamGuard.antt =====
-- `StreamGuard` of codex_shim/net/stream_guard.py: how a guarded stream ends. Pings, times and log
-- lines are left out; closing the upstream and `write_eof` are counted.
pub mod Endings
use codex_shim.Prelude.{
  ℕ, ◌+◌, Bool, true, false, not, ◌&&◌, ◌||◌, Option, none, some, List, [], ◌∷◌, ◌++◌, Text, codes,
  if◌then◌else◌,
}

-- What a call of the emitter does: it returns the name of the terminal event, or it raises.
pub data Reply : Type 0 where
  emitted : (event : Text) → Reply
  raised_disconnect raised_cancelled raised_other : Reply

-- The protocol `TerminalEmitter`, on the emitter's state.
pub record Emitter (E : Type 0) : Type 0 where
  pub already_emitted : E → Bool
  pub complete : E → Bool → E × Reply
  pub fail : E → (message code : Text) → E × Reply

-- The exception with which the `async with` body is left; another one has a class name and a text.
pub data Leaving : Type 0 where
  normally with_disconnect with_cancelled : Leaving
  with_exception : (name text : Text) → Leaving

-- How the emission of the terminal event ended.
pub data Terminal : Type 0 where
  over gone cancelled : Terminal

-- What `__aexit__` does: it returns whether the exception is swallowed, or it raises
-- `CancelledError`.
pub data Exit : Type 0 where
  returns : (swallowed : Bool) → Exit
  raises_cancelled : Exit

pub record Guard (E : Type 0) : Type 0 where
  pub emitter : E
  pub has_response : Bool
  pub has_upstream : Bool
  pub upstream_events : ℕ
  pub upstream_saw_done : Bool
  pub terminal_event : Option Text
  pub abandoned : Bool
  pub active : Bool
  pub closed_upstreams : ℕ
  pub written_eofs : ℕ

-- `__init__`
abbrev pub new_guard : {E : Type 0} → E → (has_response has_upstream : Bool) → Guard E
new_guard emitter has_response has_upstream = record {
  emitter = emitter;
  has_response = has_response;
  has_upstream = has_upstream;
  upstream_events = 0;
  upstream_saw_done = false;
  terminal_event = none;
  abandoned = false;
  active = false;
  closed_upstreams = 0;
  written_eofs = 0;
}

module _ {E : Type 0} where
  -- __aenter__; the writer exists where the response does
  unfoldable pub enter : Guard E → Guard E
  enter g = record g { active = g.has_response || g.active }

  unfoldable pub abandon : Guard E → Guard E
  abandon g = record g { abandoned = true; active = false }

  unfoldable pub attach_upstream : Guard E → Guard E
  attach_upstream g = record g { has_upstream = true }

  unfoldable pub mark_upstream_done : Guard E → Guard E
  mark_upstream_done g = record g { upstream_saw_done = true }

  unfoldable pub note_upstream_event : Guard E → Guard E
  note_upstream_event g = record g { upstream_events = g.upstream_events + 1 }

  -- self.terminal_event = await self.emitter....; other exceptions are only logged
  abbrev pub note_reply : Guard E → E × Reply → Guard E × Terminal
  note_reply g (e, emitted event) = (record g { emitter = e; terminal_event = some event }, over)
  note_reply g (e, raised_disconnect) = (record g { emitter = e }, gone)
  note_reply g (e, raised_cancelled) = (record g { emitter = e }, cancelled)
  note_reply g (e, raised_other) = (record g { emitter = e }, over)

  abbrev pub after_terminal : Bool → Guard E × Terminal → Guard E × Exit
  after_terminal swallowed (g, over) = (g, returns swallowed)
  after_terminal swallowed (g, gone) = (g, returns true)
  after_terminal swallowed (g, cancelled) = (g, raises_cancelled)

  -- `finally`
  unfoldable pub clean_up : Guard E → Guard E
  clean_up g = record g {
    has_upstream = false;
    closed_upstreams = if g.has_upstream then g.closed_upstreams + 1 else g.closed_upstreams;
    written_eofs = if not g.abandoned && g.has_response then g.written_eofs + 1 else g.written_eofs;
    active = false;
  }

-- f"Shim stream error: {exc_type.__name__}: {exc}"
abbrev pub shim_error : Text → Text → Text
shim_error name text = codes "Shim stream error: " ++ name ++ codes ": " ++ text

module _ {E : Type 0} (emitter : Emitter E) where
  -- note_upstream_disconnect; what it raises is `gone` or `cancelled`
  unfoldable pub note_upstream_disconnect : Text → Guard E → Guard E × Terminal
  note_upstream_disconnect exc g =
      let message = codes "Upstream stream disconnected: " ++ exc in
      let failed = emitter.fail g.emitter message (codes "upstream_disconnect") in
      if not g.has_response || emitter.already_emitted g.emitter
      then (g, over)
      else note_reply g failed

  -- _complete_terminal
  unfoldable pub complete_terminal : Guard E → Guard E × Terminal
  complete_terminal g =
      let completed = emitter.complete g.emitter g.upstream_saw_done in
      if g.has_response then note_reply g completed else (g, over)

  -- _fail_terminal
  unfoldable pub fail_terminal : (message code : Text) → Guard E → Guard E × Terminal
  fail_terminal message code g =
      let failed = emitter.fail g.emitter message code in
      if g.has_response then note_reply g failed else (g, over)

  -- the `try` of `__aexit__`
  unfoldable pub leave : Leaving → Guard E → Guard E × Exit
  unfolding complete_terminal fail_terminal
  leave with_disconnect g = (g, returns (not g.abandoned))
  leave with_cancelled g = (g, returns false)
  leave (with_exception name text) g =
      let failed = fail_terminal (shim_error name text) (codes "shim_stream_error") g in
      if g.abandoned then (g, returns false) else after_terminal true failed
  leave normally g =
      let completed = complete_terminal g in
      if g.abandoned then (g, returns false) else after_terminal false completed

  unfoldable pub aexit : Leaving → Guard E → Guard E × Exit
  unfolding leave clean_up
  aexit leaving g = let (left, exit) = leave leaving g in (clean_up left, exit)
