-- ===== src/Emitters/Relay/Lines.antt =====
-- The body of a relayed Responses stream: what each line leaves.
use codex_shim.Prelude.{
  ℕ, ◌+◌, ◌≡◌, refl, sym, ap, ◌∙◌, max, ◌⊎◌, inl, inr, true, false, not, ◌||◌, List, [], ◌∷◌, ◌++◌,
  Text, codes, text_eq, mem, ltb, arith, Bool-cases, on_true, on_false,
}
use mathlib.Core.Path.{subst}
use codex_shim.Json.{Json, obj, Fields, find}
use codex_shim.Pipeline.Items.{text_field, field_of}
use codex_shim.StreamGuard.{
  Leaving, normally, with_exception, Terminal, over, Guard, note_reply, note_upstream_disconnect,
  mark_upstream_done,
}
use codex_shim.Emitters.{
  sse, raw, write_all, type_in, responses_terminal, ChatgptRelay, observe, chatgpt_fail,
  chatgpt_emitter, next_response,
}
use codex_shim.Emitters.Relay.{
  Line, done_line, other_text, payload, raising, Upstream, ended, broken, write_frame, after_note,
  relay_lines,
}
use codex_shim.Emitters.Terminals.{
  is_terminal, terminals, terminals-append, dones, dones-append, staying, one_if, IsRelaying,
  write_stays, fail-IsFinished, fail-IsRelaying,
}

-- The terminal events that the upstream sends before its end marker or a value that raises.
unfoldable pub sent_terminals : List Line → ℕ
unfolding text_field find text_eq mem
sent_terminals (payload d ∷ lines) =
    one_if (type_in responses_terminal (obj d)) + sent_terminals lines
sent_terminals (other_text t ∷ lines) = sent_terminals lines
sent_terminals (done_line ∷ lines) = 0
sent_terminals (raising name text ∷ lines) = 0
sent_terminals [] = 0

write_raw-IsRelaying :
    (t : Text) (s : ChatgptRelay) (n : ℕ)
    → IsRelaying s n
    → (IsRelaying (write_frame (raw t) s).0 n) × ((write_frame (raw t) s).1 ≡ true)
unfolding write_frame terminals dones is_terminal
write_raw-IsRelaying t s n w = rw (write_stays s n (raw t ∷ []) w) (
  (record {
    stays = refl;
    count = terminals-append s.client.frames (raw t ∷ []) ∙ omega (arith, w.count);
    saw = w.saw;
    marks = dones-append s.client.frames (raw t ∷ []) ∙ omega (arith, w.marks);
  }),
  refl,
)

-- observe, then the write
noted_frame :
    (event : Json) (s noted : ChatgptRelay) (m n : ℕ)
    → IsRelaying s n
    → terminals (sse event ∷ []) ≡ m
    → noted.client ≡ s.client
    → noted.done_written ≡ s.done_written
    → noted.saw_terminal ≡ ltb 0 (m + n)
    → (IsRelaying (write_frame (sse event) noted).0 (m + n))
      × ((write_frame (sse event) noted).1 ≡ true)
unfolding write_frame dones
noted_frame event s noted m n w e same marks saw =
    let path : write_all (sse event ∷ []) noted.client
        ≡ (staying (s.client.frames ++ sse event ∷ []), true) =
      ap (write_all (sse event ∷ [])) same ∙ write_stays s n (sse event ∷ []) w in
    rw path (
      (record {
        stays = refl;
        count = terminals-append s.client.frames (sse event ∷ []) ∙ omega (arith, w.count, e);
        saw = saw;
        marks =
            dones-append s.client.frames (sse event ∷ [])
            ∙ omega (arith, w.marks)
            ∙ ap one_if (sym marks);
      }),
      refl,
    )

event_terminals :
    (d : Fields) → terminals (sse (obj d) ∷ []) ≡ one_if (type_in responses_terminal (obj d))
unfolding terminals is_terminal text_field find text_eq mem
event_terminals d = omega arith

one_more : (n : ℕ) → true ≡ ltb 0 (one_if true + n)
one_more n = ground arith

no_more : (n : ℕ) → ltb 0 n ≡ ltb 0 (one_if false + n)
no_more n = ground arith

write_payload-IsRelaying :
    (d : Fields) (s : ChatgptRelay) (n : ℕ)
    → IsRelaying s n
    → let written = write_frame (sse (obj d)) (observe (obj d) s) in
      (IsRelaying written.0 (one_if (type_in responses_terminal (obj d)) + n)) × (written.1 ≡ true)
unfolding observe text_field find text_eq mem
write_payload-IsRelaying d s n w =
    let b = type_in responses_terminal (obj d) in
    let Good = λ (noted : ChatgptRelay).
      (IsRelaying (write_frame (sse (obj d)) noted).0 (one_if b + n))
      × ((write_frame (sse (obj d)) noted).1 ≡ true) in
    let last = next_response (field_of (codes "response") (obj d)) s.last_response in
    let noted = record s { last_response = last } in
    let seen = record noted {
      saw_terminal = true;
      terminal_event = text_field (codes "type") (obj d);
    } in
    elim (Bool-cases b) [
      | inl yes_terminal ↦ on_true Good yes_terminal seen noted (
          noted_frame (obj d) s seen (one_if b) n w (event_terminals d) refl refl
            (one_more n ∙ ap (λ x. ltb 0 (one_if x + n)) (sym yes_terminal)))
      | inr no_terminal ↦ on_false Good no_terminal seen noted (
          noted_frame (obj d) s noted (one_if b) n w (event_terminals d) refl refl
            (w.saw ∙ no_more n ∙ ap (λ x. ltb 0 (one_if x + n)) (sym no_terminal)))
    ]

-- The body was left, with no disconnect of the client, and what the exit still needs holds.
pub record IsLeft (x : Guard ChatgptRelay × Leaving) (n : ℕ) : Type 0 where
  pub seen : ℕ
  pub relaying : IsRelaying x.0.emitter seen
  pub same : max 1 seen ≡ max 1 n
  pub responds : x.0.has_response ≡ true
  pub live : x.0.abandoned ≡ false
  pub how : (x.1 ≡ normally) ⊎ ((name : Text) × (text : Text) × (x.1 ≡ with_exception name text))

module _ (fresh_id : Text) where
  -- the emitter's `fail`, noted
  noted_failure :
      (g : Guard ChatgptRelay) (n : ℕ) (message code : Text)
      → IsRelaying g.emitter n
      → g.has_response ≡ true
      → g.abandoned ≡ false
      → IsLeft (after_note (note_reply g (chatgpt_fail fresh_id g.emitter message code))) n
  noted_failure g n message code w responds live =
      let finished = fail-IsFinished fresh_id g.emitter n message code w in
      let failed = chatgpt_fail fresh_id g.emitter message code in
      subst (λ reply. IsLeft (after_note (note_reply g (failed.0, reply))) n) (sym finished.replies)
        (record {
          seen = max 1 n;
          relaying = fail-IsRelaying fresh_id g.emitter n message code w;
          same = omega arith;
          responds = responds;
          live = live;
          how = inl refl;
        })

  broken-IsLeft :
      (exc : Text) (g : Guard ChatgptRelay) (n : ℕ)
      → IsRelaying g.emitter n
      → g.has_response ≡ true
      → g.abandoned ≡ false
      → IsLeft (after_note (note_upstream_disconnect (chatgpt_emitter fresh_id) exc g)) n
  unfolding note_upstream_disconnect chatgpt_emitter
  broken-IsLeft exc g n w responds live =
      let message = codes "Upstream stream disconnected: " ++ exc in
      let code = codes "upstream_disconnect" in
      let failed = note_reply g (chatgpt_fail fresh_id g.emitter message code) in
      let Good = λ (x : Guard ChatgptRelay × Terminal). IsLeft (after_note x) n in
      elim (Bool-cases (not g.has_response || g.emitter.already_emitted)) [
        | inl skipped ↦
            on_true Good skipped (g, over) failed
              (record {
                seen = n;
                relaying = w;
                same = refl;
                responds = responds;
                live = live;
                how = inl refl;
              })
        | inr wanted ↦
            on_false Good wanted (g, over) failed (noted_failure g n message code w responds live)
      ]

  pub relay_lines-IsLeft :
      (lines : List Line) (upstream : Upstream) (g : Guard ChatgptRelay) (n : ℕ)
      → IsRelaying g.emitter n
      → g.has_response ≡ true
      → g.abandoned ≡ false
      → IsLeft (relay_lines fresh_id lines upstream g) (sent_terminals lines + n)
  unfolding relay_lines sent_terminals mark_upstream_done
  relay_lines-IsLeft [] ended g n w responds live = record {
    seen = n;
    relaying = w;
    same = ap (max 1) (omega arith);
    responds = responds;
    live = live;
    how = inl refl;
  }
  relay_lines-IsLeft [] (broken exc) g n w responds live =
      subst (IsLeft _) (omega arith) (broken-IsLeft exc g n w responds live)
  relay_lines-IsLeft (done_line ∷ lines) upstream g n w responds live = record {
    seen = n;
    relaying = w;
    same = ap (max 1) (omega arith);
    responds = responds;
    live = live;
    how = inl refl;
  }
  relay_lines-IsLeft (raising name text ∷ lines) upstream g n w responds live = record {
    seen = n;
    relaying = w;
    same = ap (max 1) (omega arith);
    responds = responds;
    live = live;
    how = inr (name, text, refl);
  }
  relay_lines-IsLeft (other_text t ∷ lines) upstream g n w responds live =
      let (relaying, made) = write_raw-IsRelaying t g.emitter n w in
      on_true (λ x. IsLeft x (sent_terminals lines + n)) made _ _
        (relay_lines-IsLeft lines upstream _ n relaying responds live)
  relay_lines-IsLeft (payload d ∷ lines) upstream g n w responds live =
      let b = type_in responses_terminal (obj d) in
      let (relaying, made) = write_payload-IsRelaying d g.emitter n w in
      on_true (λ x. IsLeft x (one_if b + sent_terminals lines + n)) made _ _
        (subst (IsLeft _) (omega arith)
          (relay_lines-IsLeft lines upstream _ (one_if b + n) relaying responds live))
