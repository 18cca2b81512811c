-- ===== src/Tests/GuardRuns.antt =====
-- Guarded streams over an emitter that counts the terminal events it sends.
use codex_shim.Prelude.{ℕ, suc, ◌+◌, ◌≡◌, refl, true, false, not, ◌&&◌, codes, if◌then◌else◌}
use codex_shim.StreamGuard.{
  Emitter, emitted, normally, with_cancelled, returns, Guard, new_guard, enter, abandon,
  attach_upstream, aexit,
}
use codex_shim.StreamGuard.Endings.{aexit-released, aexit-abandon}

abbrev counting : Emitter ℕ
counting = record {
  already_emitted = λ n. false;
  complete = λ n saw_done. (suc n, emitted (codes "response.completed"));
  fail = λ n message code. (suc n, emitted (codes "response.failed"));
}

abbrev guard : Guard ℕ
guard = attach_upstream (enter (new_guard 0 true false))

aexit-released_example :
    ((aexit counting with_cancelled guard).0.has_upstream ≡ false)
    × ((aexit counting with_cancelled guard).0.active ≡ false)
    × ((aexit counting with_cancelled guard).0.closed_upstreams
        ≡ (if guard.has_upstream then guard.closed_upstreams + 1 else guard.closed_upstreams))
    × ((aexit counting with_cancelled guard).0.written_eofs ≡ (
        if not guard.abandoned && guard.has_response
        then guard.written_eofs + 1
        else guard.written_eofs))
aexit-released_example = aexit-released counting with_cancelled guard

aexit-abandon_example :
    ((aexit counting normally (abandon guard)).0.emitter ≡ guard.emitter)
    × ((aexit counting normally (abandon guard)).0.terminal_event ≡ guard.terminal_event)
    × ((aexit counting normally (abandon guard)).0.written_eofs ≡ guard.written_eofs)
    × ((aexit counting normally (abandon guard)).1 ≡ returns false)
aexit-abandon_example = aexit-abandon counting normally guard

one_terminal : (aexit counting normally guard).0.emitter ≡ 1
unfolding enter attach_upstream aexit
one_terminal = refl
