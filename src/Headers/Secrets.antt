-- ===== src/Headers/Secrets.antt =====
-- The caller's `Authorization` does not reach an upstream that takes no key.
use codex_shim.Prelude.{
  ◌≡◌, refl, false, not, Option, none, some, [], ◌∷◌, Text, Text-Eq, codes, text_eq, text_eq_iff,
  keep_if, strip, arith,
}
use codex_shim.Prelude.Dict.{put}
use codex_shim.Headers.{
  Headers, lower, same_name, header_present, override_one, apply_overrides,
  client_headers_for_upstream, keyless_api_key, or_blank, override_if, openai_upstream_headers,
  add_defaults, with_content_type, copy_headers, content_type, json_type,
}

header_present-put :
    (k v name : Text) (d : Headers)
    → same_name k name ≡ false
    → header_present d name ≡ false
    → header_present (put k v d) name ≡ false
unfolding header_present put
header_present-put k v name [] other absent = ground arith
header_present-put k v name ((j, w) ∷ d) other absent =
    grind (arith, header_present-put k v name d, text_eq_iff j k)

header_present-drop :
    (name : Text) (d : Headers)
    → header_present (keep_if (λ (h : Text × Text). not (same_name h.0 name)) d) name ≡ false
unfolding header_present
header_present-drop name [] = refl
header_present-drop name ((j, w) ∷ d) = ground (arith, header_present-drop name d)

accept-header_present :
    (accept : Option Text) (d : Headers)
    → header_present d (codes "Authorization") ≡ false
    → header_present
        (apply_overrides (override_if (codes "Accept") accept) d)
        (codes "Authorization")
      ≡ false
unfolding apply_overrides override_one same_name lower text_eq
accept-header_present none d absent = absent
accept-header_present (some []) d absent = absent
accept-header_present (some (c ∷ t)) d absent =
    header_present-put (codes "Accept") (c ∷ t) (codes "Authorization") d refl absent

-- With the key `public`, whatever spaces it stands in, no header named `Authorization` in any spelling
-- of its case goes upstream, whatever the caller sent and whatever else is configured.
pub openai_upstream_headers-keyless :
    (request_headers : Headers) (api_key : Option Text) (extra_headers : Headers)
    (accept : Option Text)
    → strip (or_blank api_key) ≡ keyless_api_key
    → header_present
        (openai_upstream_headers request_headers api_key extra_headers accept)
        (codes "Authorization")
      ≡ false
unfolding openai_upstream_headers client_headers_for_upstream apply_overrides override_one text_eq
openai_upstream_headers-keyless request_headers api_key extra_headers accept keyless =
    let merged =
      put content_type json_type
        (add_defaults (with_content_type extra_headers) (copy_headers request_headers [])) in
    rw keyless (accept-header_present accept _ (header_present-drop (codes "Authorization") merged))
