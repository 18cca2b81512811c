-- ===== src/Tests/ErrorRuns.antt =====
-- An error whose type names it.
use codex_shim.Prelude.{◌≡◌, refl, some, codes, text_eq, mem, strip}
use codex_shim.Json.{Json, obj, str, field, end, find}
use codex_shim.Errors.{Python, value_of}
use codex_shim.Errors.Upstream.{
  parse_upstream_error, with_payload, with_error, nonempty_str, nested_code, error_code_of,
  with_detail, detail_parts, join_parts,
}
use codex_shim.Errors.Upstream.Nonblank.{AreTexts, parse_upstream_error-AreTexts}

abbrev limited : Json
limited =
    obj
      (field (codes "error") (obj (field (codes "type") (str (codes "rate-limit-error")) end)) end)

abbrev py : Python
py = record {
  loads = λ t. some limited;
  dumps = λ v. codes "{}";
  py_str = λ v. codes "1";
  lower = λ t. t;
}

parse_upstream_error-AreTexts_example : AreTexts (parse_upstream_error py (codes "{}") 500)
parse_upstream_error-AreTexts_example =
    parse_upstream_error-AreTexts py (codes "{}") 500 (λ n. refl)

typed_error : (parse_upstream_error py (codes "{}") 500).0 ≡ codes "rate-limit-error"
unfolding parse_upstream_error with_payload with_error nonempty_str nested_code error_code_of
    with_detail detail_parts join_parts value_of find text_eq mem strip
typed_error = refl
