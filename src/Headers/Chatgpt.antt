-- ===== src/Headers/Chatgpt.antt =====
-- The headers for ChatGPT in codex_shim/header_passthrough.py. The version of the installed `codex` and
-- the search of a version in a `User-Agent` are parameters; the digits of a version are ASCII.
use codex_shim.Prelude.{
  ℕ, ◌+◌, ◌-◌, ◌*◌, Bool, true, false, not, ◌&&◌, ◌||◌, Option, none, some, List, [], ◌∷◌, ◌++◌,
  Text, Text-Eq, codes, nat_eq, ltb, leb, keep_if, if◌then◌else◌,
}
use codex_shim.Prelude.Dict.{put}
use codex_shim.Headers.{
  Headers, same_name, header_present, client_headers_for_upstream, openai_upstream_headers, bearer,
  content_type, json_type,
}

abbrev pub is_digit : ℕ → Bool
is_digit c = leb 48 c && leb c 57

-- version.split(".")
abbrev pub add_char : ℕ → List Text → List Text
add_char c [] = (c ∷ []) ∷ []
add_char c (bit ∷ bits) = (c ∷ bit) ∷ bits

unfoldable pub split_dots : Text → List Text
split_dots [] = [] ∷ []
split_dots (c ∷ t) = let bits = split_dots t in if nat_eq c 46 then [] ∷ bits else add_char c bits

-- int(digits) of the digits that a text begins with; `none` if there are none
abbrev pub push_digit : Option ℕ → ℕ → Option ℕ
push_digit none c = some (c - 48)
push_digit (some n) c = some (n * 10 + (c - 48))

unfoldable pub leading_number : Option ℕ → Text → Option ℕ
leading_number n [] = n
leading_number n (c ∷ t) =
    let more = leading_number (push_digit n c) t in if is_digit c then more else n

unfoldable pub leading_numbers : List Text → List ℕ
unfolding leading_number
leading_numbers [] = []
leading_numbers (bit ∷ bits) =
    let rest = leading_numbers bits in
    elim (leading_number none bit) [ none ↦ [] | some n ↦ n ∷ rest ]

-- _version_key
unfoldable pub version_key : Text → List ℕ
unfolding split_dots leading_numbers
version_key version = leading_numbers (split_dots version)

-- a >= b of tuples
unfoldable pub not_before : List ℕ → List ℕ → Bool
not_before a [] = true
not_before [] (n ∷ b) = false
not_before (m ∷ a) (n ∷ b) = ltb n m || nat_eq m n && not_before a b

-- headers[ua_key], for the first key of that name
unfoldable pub first_value : Text → Headers → Option Text
unfolding same_name
first_value name [] = none
first_value name ((key, value) ∷ headers) =
    if same_name key name then some value else first_value name headers

abbrev pub cli_name : Text
cli_name = codes "codex_cli_rs"

abbrev pub without : Text → Headers → Headers
without name headers = keep_if (λ (h : Text × Text). not (same_name h.0 name)) headers

abbrev pub as_cli : Text → Headers → Headers
as_cli system_version headers = put (codes "originator") cli_name (
    without (codes "originator")
      (put (codes "User-Agent") (cli_name ++ codes "/" ++ system_version) headers))

-- if not _header_present(request_headers, name): setdefaults[name] = value
abbrev pub default_if_absent : Headers → Text → Text → Headers
default_if_absent headers name value =
    if header_present headers name then [] else (name, value) ∷ []

abbrev pub account_default : Headers → Text → Headers
account_default headers [] = []
account_default headers (c ∷ account_id) =
    default_if_absent headers (codes "chatgpt-account-id") (c ∷ account_id)

abbrev pub chatgpt_accept_encoding : Text
chatgpt_accept_encoding = codes "zstd, gzip, deflate"

module _ (version_in : Text → Option Text) (system_version : Option Text) where
  -- _upgrade_stale_chatgpt_client_identity
  unfoldable pub upgrade_stale_client : Headers → Headers
  unfolding version_key not_before first_value put same_name
  upgrade_stale_client headers = elim system_version [
    | none ↦ headers
    | some system ↦ elim (first_value (codes "User-Agent") headers) [
      | none ↦ headers
      | some user_agent ↦ elim (version_in user_agent) [
        | none ↦ headers
        | some client ↦
            if not_before (version_key client) (version_key system)
            then headers
            else as_cli system headers
      ]
    ]
  ]

  unfoldable pub chatgpt_passthrough_upstream_headers :
      Headers → (access_token account_id accept : Text) → Headers
  unfolding client_headers_for_upstream upgrade_stale_client header_present
  chatgpt_passthrough_upstream_headers request_headers access_token account_id accept =
      let beta = codes "responses=2026-02-06" in
      let setdefaults =
        default_if_absent request_headers (codes "Accept-Encoding") chatgpt_accept_encoding
        ++ (account_default request_headers account_id
            ++ (default_if_absent request_headers (codes "OpenAI-Beta") beta
                ++ default_if_absent request_headers (codes "originator") cli_name)) in
      upgrade_stale_client (
        client_headers_for_upstream request_headers
          ((codes "Authorization", some (bearer access_token))
            ∷ (content_type, some json_type)
            ∷ (codes "Accept", some accept)
            ∷ (codes "OpenAI-Beta", some beta)
            ∷ [])
          setdefaults)

  unfoldable pub chatgpt_passthrough_ws_upstream_headers :
      Headers → (access_token account_id : Text) → Headers
  unfolding client_headers_for_upstream upgrade_stale_client header_present
  chatgpt_passthrough_ws_upstream_headers request_headers access_token account_id =
      let setdefaults =
        account_default request_headers account_id
        ++ (default_if_absent request_headers (codes "OpenAI-Beta")
              (codes "responses_websockets=2026-02-06")
            ++ default_if_absent request_headers (codes "originator") cli_name) in
      upgrade_stale_client (
        client_headers_for_upstream request_headers
          ((codes "Authorization", some (bearer access_token)) ∷ []) setdefaults)

unfoldable pub openai_responses_ws_upstream_headers :
    Headers → (api_key : Option Text) (extra_headers : Headers) → Headers
unfolding openai_upstream_headers header_present put
openai_responses_ws_upstream_headers request_headers api_key extra_headers =
    let beta = codes "OpenAI-Beta" in
    let setdefaults =
      if not (header_present request_headers beta) && not (header_present extra_headers beta)
      then put beta (codes "responses_websockets=2026-02-06") extra_headers
      else extra_headers in
    openai_upstream_headers request_headers api_key setdefaults none
