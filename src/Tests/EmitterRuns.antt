-- ===== src/Tests/EmitterRuns.antt =====
-- A relayed stream that breaks after its first event.
use codex_shim.Prelude.{◌+◌, ◌≡◌, refl, max, true, List, [], ◌∷◌, codes}
use codex_shim.Json.{field, end, str}
use codex_shim.StreamGuard.{Guard, new_guard}
use codex_shim.Emitters.{ChatgptRelay, new_chatgpt_relay}
use codex_shim.Emitters.Relay.{Line, payload, broken, relay_stream}
use codex_shim.Emitters.Terminals.{IsRelaying, staying, terminals, dones}
use codex_shim.Emitters.Relay.Lines.{sent_terminals}
use codex_shim.Emitters.Relay.Endings.{relay_stream-terminals}

abbrev guard : Guard ChatgptRelay
guard = new_guard (new_chatgpt_relay (codes "chatgpt") (staying [])) true true

abbrev lines : List Line
lines = payload (field (codes "type") (str (codes "response.created")) end) ∷ []

guard_IsRelaying : IsRelaying guard.emitter 0
unfolding terminals dones
guard_IsRelaying = record { stays = refl; count = refl; saw = refl; marks = refl }

relay_stream-terminals_example :
    (terminals
        (relay_stream
          (codes "resp_shim_1")
          lines
          (broken (codes "reset"))
          guard).0.emitter.client.frames
      ≡ max 1 (sent_terminals lines + 0))
    × (dones
          (relay_stream
            (codes "resp_shim_1")
            lines
            (broken (codes "reset"))
            guard).0.emitter.client.frames
        ≡ 1)
relay_stream-terminals_example =
    relay_stream-terminals (codes "resp_shim_1") lines (broken (codes "reset")) guard 0
      guard_IsRelaying refl refl
