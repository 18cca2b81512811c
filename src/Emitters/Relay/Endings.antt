-- ===== src/Emitters/Relay/Endings.antt =====
-- A relayed Responses stream, from the first line to the exit of the guard.
use codex_shim.Prelude.{
  ℕ, ◌+◌, ◌≡◌, sym, ◌∙◌, max, inl, inr, Bool, true, false, List, Text, codes, if◌then◌else◌,
  on_true, on_false,
}
use mathlib.Core.Path.{subst}
use codex_shim.StreamGuard.{
  Reply, Leaving, Terminal, over, Exit, returns, Guard, note_reply, after_terminal, clean_up,
  complete_terminal, fail_terminal, shim_error, leave, aexit,
}
use codex_shim.Emitters.{ChatgptRelay, chatgpt_complete, chatgpt_fail, chatgpt_emitter}
use codex_shim.Emitters.Relay.{Line, Upstream, relay_lines, relay_stream}
use codex_shim.Emitters.Terminals.{
  terminals, dones, IsRelaying, IsFinished, complete-IsFinished, fail-IsFinished,
}
use codex_shim.Emitters.Relay.Lines.{sent_terminals, IsLeft, relay_lines-IsLeft}

-- After the exit: so many terminal events as before, or one if there was none, and one end marker.
abbrev IsEnded : ChatgptRelay → ℕ → Type 0
IsEnded s n = (terminals s.client.frames ≡ max 1 n) × (dones s.client.frames ≡ 1)

-- What the emitter returns in the exit of a live guard is what the exit leaves.
finished_exit :
    (x : ChatgptRelay × Reply) (swallowed : Bool) (g : Guard ChatgptRelay) (m n : ℕ)
    → max 1 m ≡ max 1 n
    → g.has_response ≡ true
    → g.abandoned ≡ false
    → IsFinished x m
    → let noted = if g.has_response then note_reply g x else (g, over) in
      let left = if g.abandoned then (g, returns false) else after_terminal swallowed noted in
      IsEnded (clean_up left.0).emitter n
unfolding clean_up
finished_exit x swallowed g m n same responds live finished =
    let Good = λ (y : Guard ChatgptRelay × Exit). IsEnded (clean_up y.0).emitter n in
    on_false Good live (g, returns false) _
      (on_true (λ (y : Guard ChatgptRelay × Terminal). Good (after_terminal swallowed y)) responds
        (note_reply g x) (g, over)
        (subst (λ reply. Good (after_terminal swallowed (note_reply g (x.0, reply))))
          (sym finished.replies) (finished.count ∙ same, finished.marks)))

module _ (fresh_id : Text) where
  -- the exit, with the way the body was left put in
  exit_with :
      (g : Guard ChatgptRelay) (leaving : Leaving) (n : ℕ)
      → IsLeft (g, leaving) n
      → IsEnded (aexit (chatgpt_emitter fresh_id) leaving g).0.emitter n
  unfolding aexit leave complete_terminal fail_terminal chatgpt_emitter
  exit_with g leaving n left =
      let Good = λ (how : Leaving). IsEnded (aexit (chatgpt_emitter fresh_id) how g).0.emitter n in
      elim left.how [
        | inl normal ↦ subst Good (sym normal) (
            finished_exit (chatgpt_complete fresh_id g.emitter g.upstream_saw_done) false g
              left.seen n left.same left.responds left.live
              (complete-IsFinished fresh_id g.emitter left.seen g.upstream_saw_done left.relaying))
        | inr (name, text, raised) ↦ subst Good (sym raised) (
            finished_exit
              (chatgpt_fail fresh_id g.emitter (shim_error name text) (codes "shim_stream_error"))
              true g left.seen n left.same left.responds left.live
              (fail-IsFinished fresh_id g.emitter left.seen (shim_error name text)
                (codes "shim_stream_error") left.relaying))
      ]

  -- The relay of a native Responses stream to a client that stays, under a guard that has a response
  -- and is not abandoned: whatever the upstream sends, whether it ends, breaks, or sends a JSON value
  -- that raises, the client gets a terminal event. With those sent before, it gets as many as
  -- the upstream sent up to its end marker, or one of the relay's if there was none; and the end marker is
  -- written once.
  pub relay_stream-terminals :
      (lines : List Line) (upstream : Upstream) (g : Guard ChatgptRelay) (n : ℕ)
      → IsRelaying g.emitter n
      → g.has_response ≡ true
      → g.abandoned ≡ false
      → let frames = (relay_stream fresh_id lines upstream g).0.emitter.client.frames in
        (terminals frames ≡ max 1 (sent_terminals lines + n)) × (dones frames ≡ 1)
  unfolding relay_stream
  relay_stream-terminals lines upstream g n w responds live =
      let (left, leaving) = relay_lines fresh_id lines upstream g in
      exit_with left leaving (sent_terminals lines + n)
        (relay_lines-IsLeft fresh_id lines upstream g n w responds live)
