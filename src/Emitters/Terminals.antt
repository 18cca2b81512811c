-- ===== src/Emitters/Terminals.antt =====
-- How many terminal events a client of the relay gets.
use codex_shim.Prelude.{
  ℕ, ◌+◌, ◌≡◌, refl, sym, ap, ◌∙◌, max, inl, inr, Bool, true, false, none, some, List, [], ◌∷◌,
  ◌++◌, append-nil, append_assoc, Text, codes, text_eq, mem, ltb, arith, Bool-cases, if◌then◌else◌,
  on_true, on_false,
}
use codex_shim.Json.{Fields, find}
use codex_shim.Pipeline.Items.{text_field}
use codex_shim.StreamGuard.{Reply, emitted}
use codex_shim.Emitters.{
  Frame, sse, named, raw, done, Client, write_all, type_in, responses_terminal, ChatgptRelay,
  done_frames, finish_relay, failure_frames, chatgpt_complete, chatgpt_fail, response_event, typed,
}

-- A frame that ends a turn of the Responses protocol.
unfoldable pub is_terminal : Frame → Bool
unfolding text_field find text_eq mem
is_terminal (sse event) = type_in responses_terminal event
is_terminal _ = false

unfoldable pub terminals : List Frame → ℕ
unfolding is_terminal
terminals [] = 0
terminals (f ∷ frames) = (if is_terminal f then 1 else 0) + terminals frames

pub terminals-append : (a b : List Frame) → terminals (a ++ b) ≡ terminals a + terminals b
unfolding terminals
terminals-append [] b = omega arith
terminals-append (f ∷ a) b = omega (arith, terminals-append a b)

-- How often the end marker was written by the relay itself.
unfoldable pub dones : List Frame → ℕ
dones [] = 0
dones (done ∷ frames) = 1 + dones frames
dones (sse event ∷ frames) = dones frames
dones (named name event ∷ frames) = dones frames
dones (raw line ∷ frames) = dones frames

pub dones-append : (a b : List Frame) → dones (a ++ b) ≡ dones a + dones b
unfolding dones
dones-append [] b = omega arith
dones-append (done ∷ a) b = omega (arith, dones-append a b)
dones-append (sse event ∷ a) b = dones-append a b
dones-append (named name event ∷ a) b = dones-append a b
dones-append (raw line ∷ a) b = dones-append a b

-- A client that stays.
abbrev pub staying : List Frame → Client
staying sent = record { frames = sent; patience = none }

write_all-staying :
    (frames sent : List Frame) → write_all frames (staying sent) ≡ (staying (sent ++ frames), true)
unfolding write_all
write_all-staying [] sent = ap (λ l. (staying l, true)) (sym (append-nil sent))
write_all-staying (f ∷ frames) sent =
    write_all-staying frames (sent ++ f ∷ [])
    ∙ ap (λ l. (staying l, true)) (append_assoc sent (f ∷ []) frames)

abbrev pub one_if : Bool → ℕ
one_if b = if b then 1 else 0

-- The client stays, it was sent so many terminal events, and the relay knows whether any, and
-- whether it has written the end marker.
pub record IsRelaying (s : ChatgptRelay) (n : ℕ) : Type 0 where
  pub stays : s.client ≡ staying s.client.frames
  pub count : terminals s.client.frames ≡ n
  pub saw : s.saw_terminal ≡ ltb 0 n
  pub marks : dones s.client.frames ≡ one_if s.done_written

pub write_stays :
    (s : ChatgptRelay) (n : ℕ) (frames : List Frame)
    → IsRelaying s n
    → write_all frames s.client ≡ (staying (s.client.frames ++ frames), true)
write_stays s n frames w = ap (write_all frames) w.stays ∙ write_all-staying frames s.client.frames

done_frames-terminals : (b : Bool) → terminals (done_frames b) ≡ 0
unfolding terminals is_terminal
done_frames-terminals true = refl
done_frames-terminals false = refl

done_frames-dones : (b : Bool) → one_if b + dones (done_frames b) ≡ 1
unfolding dones
done_frames-dones true = refl
done_frames-dones false = refl

-- What an emitted terminal leaves: one terminal event more if there was none, and one end marker.
pub record IsFinished (result : ChatgptRelay × Reply) (n : ℕ) : Type 0 where
  pub event : Text
  pub replies : result.1 ≡ emitted event
  pub stays : result.0.client ≡ staying result.0.client.frames
  pub count : terminals result.0.client.frames ≡ max 1 n
  pub marks : dones result.0.client.frames ≡ 1
  pub wrote : result.0.done_written ≡ true

abbrev finishing : ChatgptRelay → List Frame → ChatgptRelay
finishing s frames = record s {
  client = staying (s.client.frames ++ frames);
  done_written = true;
  already_emitted = true;
}

finish-IsFinished :
    (s : ChatgptRelay) (n m : ℕ) (frames : List Frame) (event : Text)
    (change : ChatgptRelay → ChatgptRelay)
    → IsRelaying s n
    → terminals frames ≡ m
    → n + m ≡ max 1 n
    → one_if s.done_written + dones frames ≡ 1
    → (change (finishing s frames)).client ≡ staying (s.client.frames ++ frames)
    → (change (finishing s frames)).done_written ≡ true
    → IsFinished (finish_relay s change event (write_all frames s.client)) n
finish-IsFinished s n m frames event change w e sum mark kept wrote =
    rw (write_stays s n frames w) (record {
      event = event;
      replies = refl;
      stays = kept ∙ ap (λ (c : Client). staying c.frames) (sym kept);
      count =
          ap (λ (c : Client). terminals c.frames) kept
          ∙ terminals-append s.client.frames frames
          ∙ omega (arith, w.count);
      marks =
          ap (λ (c : Client). dones c.frames) kept
          ∙ dones-append s.client.frames frames
          ∙ omega (arith, w.marks);
      wrote = wrote;
    })

finish-saw :
    (s : ChatgptRelay) (n : ℕ) (frames : List Frame) (event : Text)
    (change : ChatgptRelay → ChatgptRelay)
    → IsRelaying s n
    → (change (finishing s frames)).saw_terminal ≡ true
    → (finish_relay s change event (write_all frames s.client)).0.saw_terminal ≡ true
finish-saw s n frames event change w e = rw (write_stays s n frames w) e

incomplete_terminals :
    (object : Fields) (b : Bool)
    → terminals (sse (response_event (codes "response.incomplete") object) ∷ done_frames b) ≡ 1
unfolding terminals is_terminal text_field find text_eq mem
incomplete_terminals object true = refl
incomplete_terminals object false = refl

failed_terminals :
    (detail object : Fields) (b : Bool)
    → terminals (
        sse (typed (codes "error") detail)
        ∷ sse (response_event (codes "response.failed") object)
        ∷ done_frames b)
      ≡ 1
unfolding terminals is_terminal text_field find text_eq mem
failed_terminals detail object true = refl
failed_terminals detail object false = refl

module _ (fresh_id : Text) where
  pub complete-IsFinished :
      (s : ChatgptRelay) (n : ℕ) (b : Bool)
      → IsRelaying s n
      → IsFinished (chatgpt_complete fresh_id s b) n
  unfolding chatgpt_complete dones
  complete-IsFinished s n b w = elim (Bool-cases (ltb 0 n)) [
    | inl some_sent ↦
        let saw : s.saw_terminal ≡ true = w.saw ∙ some_sent in
        on_true (λ r. IsFinished r n) saw _ _
          (finish-IsFinished s n 0 (done_frames s.done_written) _ (λ t. t) w
            (done_frames-terminals s.done_written) (ground arith) (done_frames-dones s.done_written)
            refl refl)
    | inr none_sent ↦
        let saw : s.saw_terminal ≡ false = w.saw ∙ none_sent in
        on_false (λ r. IsFinished r n) saw _ _
          (finish-IsFinished s n 1 _ _
            (λ t. record t { terminal_event = some (codes "response.incomplete") }) w
            (incomplete_terminals _ s.done_written) (ground arith)
            (done_frames-dones s.done_written) refl refl)
  ]

  pub fail-IsFinished :
      (s : ChatgptRelay) (n : ℕ) (message code : Text)
      → IsRelaying s n
      → IsFinished (chatgpt_fail fresh_id s message code) n
  unfolding chatgpt_fail dones
  fail-IsFinished s n message code w = elim (Bool-cases (ltb 0 n)) [
    | inl some_sent ↦
        let saw : s.saw_terminal ≡ true = w.saw ∙ some_sent in
        on_true (λ r. IsFinished r n) saw _ _
          (finish-IsFinished s n 0 (done_frames s.done_written) _ (λ t. t) w
            (done_frames-terminals s.done_written) (ground arith) (done_frames-dones s.done_written)
            refl refl)
    | inr none_sent ↦
        let saw : s.saw_terminal ≡ false = w.saw ∙ none_sent in
        on_false (λ r. IsFinished r n) saw _ _
          (finish-IsFinished s n 1 _ _
            (λ t. record t { saw_terminal = true; terminal_event = some (codes "response.failed") })
            w (failed_terminals _ _ s.done_written) (ground arith)
            (done_frames-dones s.done_written) refl refl)
  ]

  fail-saw_terminal :
      (s : ChatgptRelay) (n : ℕ) (message code : Text)
      → IsRelaying s n
      → (chatgpt_fail fresh_id s message code).0.saw_terminal ≡ true
  unfolding chatgpt_fail
  fail-saw_terminal s n message code w = elim (Bool-cases s.saw_terminal) [
    | inl saw ↦
        on_true (λ (r : ChatgptRelay × Reply). r.0.saw_terminal ≡ true) saw _ _
          (finish-saw s n (done_frames s.done_written) _ (λ t. t) w saw)
    | inr not_saw ↦
        on_false (λ (r : ChatgptRelay × Reply). r.0.saw_terminal ≡ true) not_saw _ _
          (finish-saw s n (failure_frames fresh_id s message code) (codes "response.failed")
            (λ t. record t { saw_terminal = true; terminal_event = some (codes "response.failed") })
            w refl)
  ]

  -- What `fail` leaves, `complete` adds nothing to.
  pub fail-IsRelaying :
      (s : ChatgptRelay) (n : ℕ) (message code : Text)
      → IsRelaying s n
      → IsRelaying (chatgpt_fail fresh_id s message code).0 (max 1 n)
  fail-IsRelaying s n message code w =
      let finished = fail-IsFinished s n message code w in
      record {
        stays = finished.stays;
        count = finished.count;
        saw = fail-saw_terminal s n message code w ∙ ground arith;
        marks = finished.marks ∙ ap one_if (sym finished.wrote);
      }
