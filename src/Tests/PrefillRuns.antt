-- ===== src/Tests/PrefillRuns.antt =====
-- Continued streams.
use codex_shim.Prelude.{◌≡◌, refl, some, [], ◌∷◌, codes, arith}
use codex_shim.Json.{Json, str, obj, field, end}
use codex_shim.Prefill.{filter_texts}
use codex_shim.Prefill.Replay.{filter_texts-replay, filter_texts-split}

abbrev assistant : Json
assistant = obj (field (codes "role") (str (codes "assistant")) end)

abbrev user : Json
user = obj (field (codes "role") (str (codes "user")) end)

filter_texts-replay_example :
    filter_texts (codes "The plan") (some 0) (codes "The p" ∷ codes "lan is" ∷ []) ≡ codes " is"
filter_texts-replay_example =
    filter_texts-replay (codes "The plan") (codes " is") (codes "The p" ∷ codes "lan is" ∷ []) refl

filter_texts-split_example :
    (filter_texts (codes "The") (some 0) (codes "T" ∷ codes "o ship" ∷ []) ≡ codes "o ship")
    × (filter_texts (codes "The") (some 0) (codes "To ship" ∷ []) ≡ codes "To ship")
filter_texts-split_example =
    filter_texts-split b'T' b'h' b'o' (codes "e") (codes " ship") (omega arith)
