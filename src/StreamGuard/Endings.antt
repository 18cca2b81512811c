-- ===== src/StreamGuard/Endings.antt =====
-- What a guarded stream promises at its end.
use codex_shim.Prelude.{
  ◌+◌, ◌≡◌, refl, sym, ap, ◌∙◌, ◌⊎◌, inl, inr, Bool, true, false, not, ◌&&◌, some, Text, codes,
  if◌then◌else◌, if_true, if_false,
}
use mathlib.Core.Path.{subst}
use codex_shim.StreamGuard.{
  Reply, emitted, raised_disconnect, raised_cancelled, raised_other, Emitter, Leaving, normally,
  with_disconnect, with_cancelled, with_exception, Terminal, over, gone, cancelled, Exit, returns,
  raises_cancelled, Guard, abandon, note_reply, after_terminal, clean_up, complete_terminal,
  fail_terminal, shim_error, leave, aexit,
}

-- Nothing that the end of a stream releases or writes differs.
abbrev pub SameEnds : {E : Type 0} → Guard E → Guard E → Type 0
SameEnds g h =
    (g.has_response ≡ h.has_response)
    × (g.has_upstream ≡ h.has_upstream)
    × (g.abandoned ≡ h.abandoned)
    × (g.closed_upstreams ≡ h.closed_upstreams)
    × (g.written_eofs ≡ h.written_eofs)

module _ {E : Type 0} where
  note_reply-SameEnds :
      (g : Guard E) (e : E) (reply : Reply) → SameEnds (note_reply g (e, reply)).0 g
  note_reply-SameEnds g e (emitted event) = (refl, refl, refl, refl, refl)
  note_reply-SameEnds g e raised_disconnect = (refl, refl, refl, refl, refl)
  note_reply-SameEnds g e raised_cancelled = (refl, refl, refl, refl, refl)
  note_reply-SameEnds g e raised_other = (refl, refl, refl, refl, refl)

  if-SameEnds :
      (b : Bool) (x y : Guard E × Exit) (g : Guard E)
      → SameEnds x.0 g
      → SameEnds y.0 g
      → SameEnds (if b then x else y).0 g
  if-SameEnds true x y g h k = h
  if-SameEnds false x y g h k = k

  unless-SameEnds :
      (b : Bool) (x g : Guard E × Terminal) → SameEnds x.0 g.0 → SameEnds (if b then x else g).0 g.0
  unless-SameEnds true x g h = h
  unless-SameEnds false x g h = (refl, refl, refl, refl, refl)

  after_terminal-SameEnds :
      (b : Bool) (x : Guard E × Terminal) (g : Guard E)
      → SameEnds x.0 g
      → SameEnds (after_terminal b x).0 g
  after_terminal-SameEnds b (x, over) g h = h
  after_terminal-SameEnds b (x, gone) g h = h
  after_terminal-SameEnds b (x, cancelled) g h = h

  swallowed_or :
      (x : Guard E × Terminal)
      → ((after_terminal true x).1 ≡ returns true) ⊎ ((after_terminal true x).1 ≡ raises_cancelled)
  swallowed_or (x, over) = inl refl
  swallowed_or (x, gone) = inl refl
  swallowed_or (x, cancelled) = inr refl

  noted :
      (g : Guard E) (x : E × Reply) (event : Text)
      → x ≡ (x.0, emitted event)
      → let (left, exit) = after_terminal false (note_reply g x) in
        ((clean_up left).emitter ≡ x.0)
        × ((clean_up left).terminal_event ≡ some event)
        × (exit ≡ returns false)
  unfolding clean_up
  noted g (e, emitted event') event h = (refl, cc, refl)
  noted g (e, raised_disconnect) event h = cc
  noted g (e, raised_cancelled) event h = cc
  noted g (e, raised_other) event h = cc

module _ {E : Type 0} (emitter : Emitter E) where
  leave-SameEnds : (leaving : Leaving) (g : Guard E) → SameEnds (leave emitter leaving g).0 g
  unfolding leave complete_terminal fail_terminal
  leave-SameEnds with_disconnect g = (refl, refl, refl, refl, refl)
  leave-SameEnds with_cancelled g = (refl, refl, refl, refl, refl)
  leave-SameEnds (with_exception name text) g =
      let reply = emitter.fail g.emitter (shim_error name text) (codes "shim_stream_error") in
      let failed = if g.has_response then note_reply g reply else (g, over) in
      let kept : SameEnds failed.0 g =
        unless-SameEnds g.has_response _ (g, over) (note_reply-SameEnds g reply.0 reply.1) in
      if-SameEnds g.abandoned (g, returns false) _ g (refl, refl, refl, refl, refl)
        (after_terminal-SameEnds true failed g kept)
  leave-SameEnds normally g =
      let reply = emitter.complete g.emitter g.upstream_saw_done in
      let completed = if g.has_response then note_reply g reply else (g, over) in
      let kept : SameEnds completed.0 g =
        unless-SameEnds g.has_response _ (g, over) (note_reply-SameEnds g reply.0 reply.1) in
      if-SameEnds g.abandoned (g, returns false) _ g (refl, refl, refl, refl, refl)
        (after_terminal-SameEnds false completed g kept)

  -- However the body is left and whatever the emitter does, the exit closes the upstream that is
  -- attached, once, deactivates the writer, and writes one end of file if there is a response and
  -- the guard was not abandoned, else none.
  pub aexit-released :
      (leaving : Leaving) (g : Guard E)
      → let left = (aexit emitter leaving g).0 in
        (left.has_upstream ≡ false)
        × (left.active ≡ false)
        × (left.closed_upstreams
            ≡ (if g.has_upstream then g.closed_upstreams + 1 else g.closed_upstreams))
        × (left.written_eofs
            ≡ (if not g.abandoned && g.has_response then g.written_eofs + 1 else g.written_eofs))
  unfolding aexit clean_up
  aexit-released leaving g =
      let (response, upstream, abandoned, closed, eofs) = leave-SameEnds leaving g in
      (refl, refl, rw (upstream, closed) refl, rw (response, abandoned, eofs) refl)

  -- After `abandon`, leaving the body in any way leaves the emitter and the terminal event as they
  -- are, writes no end of file, and lets every exception through, so that the caller may post again.
  pub aexit-abandon :
      (leaving : Leaving) (g : Guard E)
      → let (left, exit) = aexit emitter leaving (abandon g) in
        (left.emitter ≡ g.emitter)
        × (left.terminal_event ≡ g.terminal_event)
        × (left.written_eofs ≡ g.written_eofs)
        × (exit ≡ returns false)
  unfolding aexit leave clean_up abandon
  aexit-abandon normally g = (refl, refl, refl, refl)
  aexit-abandon with_disconnect g = (refl, refl, refl, refl)
  aexit-abandon with_cancelled g = (refl, refl, refl, refl)
  aexit-abandon (with_exception name text) g = (refl, refl, refl, refl)

  -- An exception in the body that is no disconnect and no cancellation is never raised again, unless
  -- the guard was abandoned: it is swallowed, or, where the emitter is cancelled in telling the client
  -- of it, `CancelledError` is raised.
  pub aexit_exception :
      (name text : Text) (g : Guard E)
      → g.abandoned ≡ false
      → ((aexit emitter (with_exception name text) g).1 ≡ returns true)
        ⊎ ((aexit emitter (with_exception name text) g).1 ≡ raises_cancelled)
  unfolding aexit leave
  aexit_exception name text g live =
      subst (λ (x : Guard E × Exit). (x.1 ≡ returns true) ⊎ (x.1 ≡ raises_cancelled))
        (sym (if_false live (g, returns false) _))
        (swallowed_or (fail_terminal emitter (shim_error name text) (codes "shim_stream_error") g))

  -- The stream that ends normally, with a response and not abandoned, ends with `complete` of the
  -- emitter, once: its state and the terminal event that it names are the guard's.
  pub aexit_completes :
      (g : Guard E) (event : Text)
      → g.abandoned ≡ false
      → g.has_response ≡ true
      → (emitter.complete g.emitter g.upstream_saw_done).1 ≡ emitted event
      → let (left, exit) = aexit emitter normally g in
        (left.emitter ≡ (emitter.complete g.emitter g.upstream_saw_done).0)
        × (left.terminal_event ≡ some event)
        × (exit ≡ returns false)
  unfolding aexit leave complete_terminal clean_up
  aexit_completes g event live responds e =
      let whole : emitter.complete g.emitter g.upstream_saw_done
          ≡ ((emitter.complete g.emitter g.upstream_saw_done).0, emitted event) =
        ap (λ r. ((emitter.complete g.emitter g.upstream_saw_done).0, r)) e in
      let completed = emitter.complete g.emitter g.upstream_saw_done in
      let path : leave emitter normally g ≡ after_terminal false (note_reply g completed) =
        if_false live (g, returns false) _
        ∙ ap (after_terminal false) (if_true responds (note_reply g completed) (g, over)) in
      subst
        (λ (x : Guard E × Exit).
          ((clean_up x.0).emitter ≡ completed.0)
          × ((clean_up x.0).terminal_event ≡ some event)
          × (x.1 ≡ returns false))
        (sym path) (noted g completed event whole)
