-- ===== src/MessageStream/Protocol.antt =====
-- The protocol of Anthropic message events, independent of the code that writes them.
use codex_shim.Prelude.{
  ℕ, suc, ◌+◌, ◌<◌, ◌≡◌, sym, ◌∙◌, Bool, true, false, List, [], ◌∷◌, arith, nat_eq, nat_eq_iff,
  Bool-cases, inl, inr, if◌then◌else◌,
}
use mathlib.Core.Path.{subst}
use codex_shim.Emitters.Terminals.{one_if}
use codex_shim.MessageStream.{
  Event, Block, Delta, message_start, block_start, block_delta, block_stop, message_delta,
  message_stop, error_event,
}

-- How many blocks were started by events, of which the newest stands first.
unfoldable pub starts : List Event → ℕ
starts [] = 0
starts (block_start i block ∷ events) = suc (starts events)
starts (block_delta i delta ∷ events) = starts events
starts (block_stop i ∷ events) = starts events
starts (message_start id model ∷ events) = starts events
starts (message_delta reason usage ∷ events) = starts events
starts (message_stop ∷ events) = starts events
starts (error_event code message ∷ events) = starts events

-- How many events end a message.
unfoldable pub ends : List Event → ℕ
ends [] = 0
ends (message_stop ∷ events) = suc (ends events)
ends (error_event code message ∷ events) = suc (ends events)
ends (block_start i block ∷ events) = ends events
ends (block_delta i delta ∷ events) = ends events
ends (block_stop i ∷ events) = ends events
ends (message_start id model ∷ events) = ends events
ends (message_delta reason usage ∷ events) = ends events

-- Whether a block was started and not stopped.
unfoldable pub is_open : ℕ → List Event → Bool
is_open i [] = false
is_open i (block_start j block ∷ events) = if nat_eq j i then true else is_open i events
is_open i (block_stop j ∷ events) = if nat_eq j i then false else is_open i events
is_open i (block_delta j delta ∷ events) = is_open i events
is_open i (message_start id model ∷ events) = is_open i events
is_open i (message_delta reason usage ∷ events) = is_open i events
is_open i (message_stop ∷ events) = is_open i events
is_open i (error_event code message ∷ events) = is_open i events

abbrev pub NoneOpen : List Event → Type 0
NoneOpen events = (i : ℕ) → is_open i events ≡ false

-- Blocks are started with the indices 0, 1, 2, …, a delta is of an open block, an open block is
-- stopped, and the message stops, or an error is told, when no block is open.
unfoldable pub IsProtocol : List Event → Type 0
unfolding starts is_open
IsProtocol [] = Unit
IsProtocol (block_start i block ∷ events) = (i ≡ starts events) × IsProtocol events
IsProtocol (block_delta i delta ∷ events) = (is_open i events ≡ true) × IsProtocol events
IsProtocol (block_stop i ∷ events) = (is_open i events ≡ true) × IsProtocol events
IsProtocol (message_start id model ∷ events) = IsProtocol events
IsProtocol (message_delta reason usage ∷ events) = IsProtocol events
IsProtocol (message_stop ∷ events) = NoneOpen events × IsProtocol events
IsProtocol (error_event code message ∷ events) = NoneOpen events × IsProtocol events

-- An open block has been started.
is_open-started :
    (i : ℕ) (events : List Event) → IsProtocol events → is_open i events ≡ true → i < starts events
unfolding IsProtocol starts is_open
is_open-started i [] p e = cc
is_open-started i (block_start j block ∷ events) (same, p) e = elim (Bool-cases (nat_eq j i)) [
  | inl here ↦ ground (arith, here, same)
  | inr other ↦ ground (arith, other, e, is_open-started i events p)
]
is_open-started i (block_stop j ∷ events) (o, p) e = elim (Bool-cases (nat_eq j i)) [
  | inl here ↦ ground (arith, here, e)
  | inr other ↦ ground (arith, other, e, is_open-started i events p)
]
is_open-started i (block_delta j delta ∷ events) (o, p) e = is_open-started i events p e
is_open-started i (message_start id model ∷ events) p e = is_open-started i events p e
is_open-started i (message_delta reason usage ∷ events) p e = is_open-started i events p e
is_open-started i (message_stop ∷ events) (o, p) e = is_open-started i events p e
is_open-started i (error_event code message ∷ events) (o, p) e = is_open-started i events p e

-- The events follow the protocol and do not end it, `next` blocks were started, and so many hold each open block: one
-- holds it if it is open, none if it is not.
pub record Tracks (events : List Event) (next : ℕ) (held : ℕ → ℕ) : Type 0 where
  pub follows : IsProtocol events
  pub count : starts events ≡ next
  pub unended : ends events ≡ 0
  pub holds : (i : ℕ) → held i ≡ one_if (is_open i events)

pub Tracks-same :
    (events : List Event) (next : ℕ) (held other : ℕ → ℕ)
    → ((i : ℕ) → other i ≡ held i)
    → Tracks events next held
    → Tracks events next other
Tracks-same events next held other e t = record {
  follows = t.follows;
  count = t.count;
  unended = t.unended;
  holds = λ i. e i ∙ t.holds i;
}

not_open : (events : List Event) → IsProtocol events → is_open (starts events) events ≡ false
not_open events p = elim (Bool-cases (is_open (starts events) events)) [
  | inl yes_open ↦ absurd (omega (arith, is_open-started (starts events) events p yes_open))
  | inr e ↦ e
]

-- What a write keeps: a start adds a holder, a delta needs one, a stop takes one away.
pub Tracks-start :
    (events : List Event) (next : ℕ) (held : ℕ → ℕ) (block : Block)
    → Tracks events next held
    → Tracks (block_start next block ∷ events) (next + 1) (λ i. held i + one_if (nat_eq next i))
unfolding IsProtocol starts is_open ends
Tracks-start events next held block t = record {
  follows = (sym t.count, t.follows);
  count = omega (arith, t.count);
  unended = t.unended;
  holds = λ i. elim (Bool-cases (nat_eq next i)) [
    | inl here ↦
        let same : starts events ≡ i = t.count ∙ (nat_eq_iff next i).0 here in
        let fresh : is_open i events ≡ false =
          subst (λ n. is_open n events ≡ false) same (not_open events t.follows) in
        ground (arith, here, fresh, t.holds i)
    | inr other ↦ ground (arith, other, t.holds i)
  ];
}

pub Tracks-delta :
    (events : List Event) (next : ℕ) (held : ℕ → ℕ) (i : ℕ) (delta : Delta)
    → Tracks events next held
    → 0 < held i
    → Tracks (block_delta i delta ∷ events) next held
unfolding IsProtocol starts is_open ends
Tracks-delta events next held i delta t some_hold = record {
  follows = (ground (arith, t.holds i, some_hold), t.follows);
  count = t.count;
  unended = t.unended;
  holds = λ j. t.holds j;
}

pub Tracks-stop :
    (events : List Event) (next : ℕ) (held rest : ℕ → ℕ) (i : ℕ)
    → Tracks events next held
    → ((j : ℕ) → held j ≡ rest j + one_if (nat_eq i j))
    → Tracks (block_stop i ∷ events) next rest
unfolding IsProtocol starts is_open ends
Tracks-stop events next held rest i t split =
    let itself : nat_eq i i ≡ true = ground arith in
    record {
      follows = (ground (arith, t.holds i, split i, itself), t.follows);
      count = t.count;
      unended = t.unended;
      holds = λ j. elim (Bool-cases (nat_eq i j)) [
        | inl here ↦ ground (arith, here, t.holds j, split j)
        | inr other ↦ ground (arith, other, t.holds j, split j)
      ];
    }
