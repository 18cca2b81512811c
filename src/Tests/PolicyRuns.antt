-- ===== src/Tests/PolicyRuns.antt =====
-- A foreign Host header, and a continuation over the WebSocket of ChatGPT.
use codex_shim.Prelude.{
  ◌↔◌, strip, ◌≡◌, refl, true, false, some, [], codes, Text, text_eq, mem, strip,
}
use codex_shim.Json.{Json, obj, str, field, end, find}
use codex_shim.HostGuard.{
  host_only, host_of, without_port, before_char, count_colons, is_admitted, build_allowed_hosts,
  bind_hosts, listed_hosts, split_commas,
}
use codex_shim.HostGuard.Names.{Names}
use codex_shim.HostGuard.Admission.{IsKnown, is_admitted-IsKnown}
use codex_shim.Continuation.{ws, chatgpt_codex, should_expand_continuation, previous_response_id}
use codex_shim.Continuation.Expansion.{Continues, IsChained, should_expand_continuation-exactly}

abbrev small : Text → Text
small t = t

is_admitted-IsKnown_example :
    (named : Text) × Names (strip (codes "192.168.0.5:8765")) named
    × IsKnown small (codes "192.168.0.5") [] (small named)
unfolding is_admitted build_allowed_hosts bind_hosts listed_hosts split_commas host_only host_of
    without_port before_char count_colons strip mem text_eq
is_admitted-IsKnown_example =
    is_admitted-IsKnown small (codes "192.168.0.5") [] (codes "192.168.0.5:8765") (λ t. refl) refl

rebound_host :
    is_admitted small (build_allowed_hosts small (codes "0.0.0.0") []) (codes "evil.example:8765")
    ≡ false
unfolding is_admitted build_allowed_hosts bind_hosts listed_hosts split_commas host_only host_of
    without_port before_char count_colons strip mem text_eq
rebound_host = refl

bracketed_host : host_only (codes " [::1]:8765") ≡ codes "::1"
unfolding host_only host_of without_port before_char count_colons strip
bracketed_host = refl

abbrev body : Json
body = obj (field (codes "previous_response_id") (str (codes "resp_1")) end)

should_expand_continuation-exactly_example :
    (should_expand_continuation false ws chatgpt_codex true (some (codes "resp_1")) body ≡ true) ↔ (
      (id : Json) × Continues body id
      × ¬ IsChained false ws chatgpt_codex true (some (codes "resp_1")) id)
should_expand_continuation-exactly_example =
    should_expand_continuation-exactly false ws chatgpt_codex true (some (codes "resp_1")) body

native_chain :
    should_expand_continuation false ws chatgpt_codex true (some (codes "resp_1")) body ≡ false
unfolding should_expand_continuation previous_response_id find text_eq
native_chain = refl
