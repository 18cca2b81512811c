-- ===== src/Headers.antt =====
-- codex_shim/header_passthrough.py: which headers go upstream. A header's name is an ASCII token, as
-- HTTP has it, so `lower` is that of ASCII.
pub mod Origin
pub mod Secrets
pub mod Chatgpt
use codex_shim.Prelude.{
  ℕ, ◌+◌, Bool, true, false, not, ◌&&◌, ◌||◌, Option, none, some, List, [], ◌∷◌, ◌++◌, map, Text,
  Text-Eq, codes, text_eq, leb, mem, any_of, keep_if, strip, is_empty, if◌then◌else◌,
}
use codex_shim.Prelude.Dict.{Dict, get, put}

abbrev pub lower_char : ℕ → ℕ
lower_char c = if leb 65 c && leb c 90 then c + 32 else c

unfoldable pub lower : Text → Text
lower t = map lower_char t

abbrev pub Headers : Type 0
Headers = Dict Text Text

abbrev pub hop_by_hop_request : List Text
hop_by_hop_request =
    codes "connection"
    ∷ codes "keep-alive"
    ∷ codes "proxy-connection"
    ∷ codes "transfer-encoding"
    ∷ codes "te"
    ∷ codes "trailer"
    ∷ codes "upgrade"
    ∷ codes "host"
    ∷ codes "content-length"
    ∷ codes "content-encoding"
    ∷ []

abbrev pub shim_internal_request : List Text
shim_internal_request = codes "x-codex-shim-picker-token" ∷ []

abbrev pub ws_upgrade_request : List Text
ws_upgrade_request =
    codes "sec-websocket-key"
    ∷ codes "sec-websocket-version"
    ∷ codes "sec-websocket-extensions"
    ∷ codes "sec-websocket-protocol"
    ∷ []

unfoldable pub is_dropped : Text → Bool
unfolding lower mem text_eq
is_dropped key =
    mem (lower key) hop_by_hop_request
    || mem (lower key) shim_internal_request
    || mem (lower key) ws_upgrade_request

-- key.lower() == name.lower()
unfoldable pub same_name : Text → Text → Bool
unfolding lower text_eq
same_name key name = text_eq (lower key) (lower name)

-- _header_present
unfoldable pub header_present : Headers → Text → Bool
unfolding same_name
header_present headers name = any_of (λ (h : Text × Text). same_name h.0 name) headers

-- the three loops of client_headers_for_upstream
unfoldable pub copy_headers : Headers → Headers → Headers
unfolding is_dropped put
copy_headers [] merged = merged
copy_headers ((key, value) ∷ headers) merged =
    copy_headers headers (if is_dropped key then merged else put key value merged)

unfoldable pub add_defaults : Headers → Headers → Headers
unfolding header_present put
add_defaults [] merged = merged
add_defaults ((key, value) ∷ defaults) merged =
    add_defaults defaults (if header_present merged key then merged else put key value merged)

abbrev pub Overrides : Type 0
Overrides = Dict Text (Option Text)

unfoldable pub override_one : Text → Option Text → Headers → Headers
unfolding same_name put
override_one key none merged = keep_if (λ (h : Text × Text). not (same_name h.0 key)) merged
override_one key (some value) merged = put key value merged

unfoldable pub apply_overrides : Overrides → Headers → Headers
unfolding override_one
apply_overrides [] merged = merged
apply_overrides ((key, value) ∷ overrides) merged =
    apply_overrides overrides (override_one key value merged)

unfoldable pub client_headers_for_upstream : Headers → Overrides → Headers → Headers
unfolding copy_headers add_defaults apply_overrides
client_headers_for_upstream request_headers overrides setdefaults =
    apply_overrides overrides (add_defaults setdefaults (copy_headers request_headers []))

abbrev pub keyless_api_key : Text
keyless_api_key = codes "public"

abbrev pub or_blank : Option Text → Text
or_blank none = []
or_blank (some t) = t

abbrev pub content_type : Text
content_type = codes "Content-Type"

abbrev pub json_type : Text
json_type = codes "application/json"

-- if value: overrides[key] = value
abbrev pub override_if : Text → Option Text → Overrides
override_if key (some (c ∷ t)) = (key, some (c ∷ t)) ∷ []
override_if key _ = []

abbrev pub bearer : Text → Text
bearer token = codes "Bearer " ++ token

-- the `Authorization` of openai_upstream_headers
abbrev pub authorization_override : Text → Overrides
authorization_override token =
    if text_eq token keyless_api_key
    then (codes "Authorization", none) ∷ []
    else if is_empty token
    then []
    else (codes "Authorization", some (bearer token)) ∷ []

-- if "Content-Type" not in setdefaults
unfoldable pub with_content_type : Headers → Headers
unfolding get
with_content_type extra = elim (get content_type extra) [
  | none ↦ (content_type, json_type) ∷ extra
  | some v ↦ extra
]

unfoldable pub openai_upstream_headers :
    Headers → (api_key : Option Text) (extra_headers : Headers) (accept : Option Text) → Headers
unfolding client_headers_for_upstream with_content_type strip text_eq
openai_upstream_headers request_headers api_key extra_headers accept =
    client_headers_for_upstream request_headers
      ((content_type, some json_type)
        ∷ (authorization_override (strip (or_blank api_key))
            ++ override_if (codes "Accept") accept))
      (with_content_type extra_headers)

-- {**base, **extra}
unfoldable pub put_all : Headers → Headers → Headers
unfolding put
put_all [] base = base
put_all ((key, value) ∷ extra) base = put_all extra (put key value base)

unfoldable pub anthropic_upstream_headers :
    Headers → (api_key : Option Text) (extra_headers : Headers) (accept : Option Text) → Headers
unfolding client_headers_for_upstream put_all
anthropic_upstream_headers request_headers api_key extra_headers accept =
    client_headers_for_upstream request_headers
      ((content_type, some json_type)
        ∷ (override_if (codes "x-api-key") api_key ++ override_if (codes "Accept") accept))
      (put_all extra_headers
        ((content_type, json_type) ∷ (codes "anthropic-version", codes "2023-06-01") ∷ []))

abbrev pub response_blocklist : List Text
response_blocklist =
    codes "content-length"
    ∷ codes "transfer-encoding"
    ∷ codes "connection"
    ∷ codes "content-encoding"
    ∷ codes "keep-alive"
    ∷ codes "proxy-connection"
    ∷ []

-- the loop of forwardable_upstream_response_headers
unfoldable pub forward_headers : List Text → Headers → Headers → Headers
unfolding lower mem put
forward_headers blocklist [] forwarded = forwarded
forward_headers blocklist ((key, value) ∷ headers) forwarded =
    forward_headers blocklist headers
      (if mem (lower key) blocklist then forwarded else put key value forwarded)

unfoldable pub forwardable_upstream_response_headers : Headers → Headers
unfolding forward_headers
forwardable_upstream_response_headers upstream_headers =
    forward_headers response_blocklist upstream_headers []

abbrev pub ws_upgrade_response_blocklist : List Text
ws_upgrade_response_blocklist =
    response_blocklist
    ++ codes "upgrade"
      ∷ codes "sec-websocket-accept"
      ∷ codes "sec-websocket-extensions"
      ∷ codes "sec-websocket-protocol"
      ∷ []

unfoldable pub forwardable_ws_upgrade_headers : Headers → Headers
unfolding forward_headers
forwardable_ws_upgrade_headers upstream_headers =
    forward_headers ws_upgrade_response_blocklist upstream_headers []
