-- ===== src/Tests/MessageRuns.antt =====
-- A chat completion that reasons, answers and calls a tool, and then breaks, as Anthropic events.
use codex_shim.Prelude.{◌≡◌, refl, none, some, List, [], ◌∷◌, Text, codes, text_eq, mem}
use codex_shim.Json.{Json, str, arr, obj, nil, cons, field, end, find}
use codex_shim.Emitters.Relay.{Upstream, broken}
use codex_shim.MessageStream.{Delta, text_delta, thinking_delta, input_json_delta, Call, Chunk}
use codex_shim.MessageStream.Wire.{
  chat_finish_to_anthropic_stop, decode_call, decode_calls, decode_chunk,
}
use codex_shim.MessageStream.Relay.{Line, other_text, payload, stream_openai_chat_as_anthropic}
use codex_shim.MessageStream.Protocol.{ends, NoneOpen, IsProtocol}
use codex_shim.MessageStream.Content.{parts}
use codex_shim.MessageStream.Content.Relayed.{lines_parts, stream_openai_chat_as_anthropic-parts}
use codex_shim.MessageStream.Endings.{stream_openai_chat_as_anthropic-IsProtocol}

-- the only value that is shown is the index 0
abbrev shown : Json → Text
shown v = codes "0"

abbrev call : Call
call = record { index = 0; id = str []; name = codes "ls"; arguments = codes "{}" }

abbrev chunk : Chunk
chunk = record {
  usage = none;
  stop_reason = some (codes "tool_use");
  reasoning = some (codes "hm");
  content = some (codes "ok");
  calls = call ∷ [];
}

abbrev delta : Json
delta = obj (
    field (codes "reasoning_content") (str (codes "hm")) (
      field (codes "content") (str (codes "ok")) (
        field (codes "tool_calls")
          (arr (
            cons
              (obj (
                field (codes "function")
                  (obj (
                    field (codes "name") (str (codes "ls"))
                      (field (codes "arguments") (str (codes "{}")) end)))
                  end))
              nil))
          end)))

abbrev chunk_json : Json
chunk_json = obj (
    field (codes "choices")
      (arr (
        cons
          (obj (
            field (codes "delta") delta
              (field (codes "finish_reason") (str (codes "tool_calls")) end)))
          nil))
      end)

decoded : decode_chunk shown chunk_json ≡ some chunk
unfolding decode_chunk decode_calls decode_call find text_eq mem chat_finish_to_anthropic_stop
decoded = refl

abbrev lines : List Line
lines = payload chunk none ∷ other_text ∷ payload chunk none ∷ []

abbrev upstream : Upstream
upstream = broken (codes "reset")

abbrev spoken : Delta → Text
spoken (text_delta t) = t
spoken (thinking_delta t) = t
spoken (input_json_delta t) = []

stream_openai_chat_as_anthropic-IsProtocol_example :
    let events =
      (stream_openai_chat_as_anthropic shown
        (codes "msg_1")
        (codes "m")
        lines
        upstream).0.emitter.written in
    IsProtocol events × NoneOpen events × (ends events ≡ 1)
stream_openai_chat_as_anthropic-IsProtocol_example =
    stream_openai_chat_as_anthropic-IsProtocol shown (codes "msg_1") (codes "m") lines upstream

stream_openai_chat_as_anthropic-parts_example :
    parts spoken
      (stream_openai_chat_as_anthropic shown
        (codes "msg_1")
        (codes "m")
        lines
        upstream).0.emitter.written
    ≡ lines_parts spoken lines
stream_openai_chat_as_anthropic-parts_example =
    stream_openai_chat_as_anthropic-parts spoken (λ t. refl) shown (codes "msg_1") (codes "m") lines
      upstream

said_twice : lines_parts spoken lines ≡ codes "hmokhmok"
unfolding lines_parts
said_twice = refl
