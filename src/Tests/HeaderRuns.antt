-- ===== src/Tests/HeaderRuns.antt =====
-- Headers of a request to an upstream without a key.
use codex_shim.Prelude.{◌≡◌, refl, false, none, some, [], ◌∷◌, codes, text_eq, mem, strip}
use codex_shim.Prelude.Dict.{put}
use codex_shim.Headers.{
  Headers, Overrides, client_headers_for_upstream, openai_upstream_headers, header_present, lower,
  same_name, is_dropped, copy_headers, add_defaults, apply_overrides, override_one,
}
use mathlib.Core.Path.{subst, sym}
use mathlib.Core.List.{Memᴰ}
use mathlib.Core.List.Memᴰ.{head}
use codex_shim.Headers.Origin.{IsFrom, client_headers_for_upstream-IsFrom}
use codex_shim.Headers.Secrets.{openai_upstream_headers-keyless}

abbrev request_headers : Headers
request_headers =
    (codes "authorization", codes "Bearer secret")
    ∷ (codes "Host", codes "127.0.0.1")
    ∷ (codes "User-Agent", codes "codex")
    ∷ []

abbrev defaults : Headers
defaults = (codes "X-Title", codes "shim") ∷ []

abbrev overrides : Overrides
overrides = (codes "Authorization", none) ∷ []

openai_upstream_headers-keyless_example :
    header_present
      (openai_upstream_headers request_headers (some (codes " public ")) defaults none)
      (codes "Authorization")
    ≡ false
unfolding strip
openai_upstream_headers-keyless_example =
    openai_upstream_headers-keyless request_headers (some (codes " public ")) defaults none refl

two_headers :
    client_headers_for_upstream request_headers overrides defaults
    ≡ (codes "User-Agent", codes "codex") ∷ (codes "X-Title", codes "shim") ∷ []
unfolding client_headers_for_upstream copy_headers add_defaults apply_overrides override_one
    is_dropped header_present same_name lower put mem text_eq
two_headers = refl

client_headers_for_upstream-IsFrom_example :
    IsFrom request_headers defaults overrides (codes "User-Agent", codes "codex")
client_headers_for_upstream-IsFrom_example =
    client_headers_for_upstream-IsFrom request_headers overrides defaults
      (codes "User-Agent", codes "codex")
      (subst (Memᴰ (codes "User-Agent", codes "codex")) (sym two_headers) (head refl))
