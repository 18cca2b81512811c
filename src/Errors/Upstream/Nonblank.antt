-- ===== src/Errors/Upstream/Nonblank.antt =====
-- What the client is told of an upstream error is never empty.
use codex_shim.Prelude.{
  ℕ, ◌≡◌, refl, inl, inr, Bool, true, false, Option, none, some, [], ◌∷◌, Text, codes, strip,
  is_empty, take, mem, Bool-cases, if◌then◌else◌, on_true, on_false,
}
use codex_shim.Json.{Json, null, bool, int, str, arr, obj, ℤ, Fields}
use codex_shim.Errors.{Python, value_of}
use codex_shim.Errors.Upstream.{
  CodeMessage, generic_error_messages, nonempty_str, replaced_by, message_or, error_code_of,
  nested_code, with_metadata, with_error, detail_parts, join_parts, with_detail, with_payload,
  http_code, parse_upstream_error,
}

-- A text that is there; no text, or one that is there; a code and a message that are there.
abbrev pub IsText : Text → Type 0
IsText t = is_empty t ≡ false

abbrev pub IsTextIfAny : Option Text → Type 0
IsTextIfAny o = elim o [ none ↦ Unit {0} | some t ↦ IsText t ]

abbrev pub AreTexts : CodeMessage → Type 0
AreTexts (code, message) = IsText code × IsText message

if_texts : (b : Bool) (s t : Text) → IsText s → IsText t → IsText (if b then s else t)
if_texts true s t h k = h
if_texts false s t h k = k

replaced_by-IsText :
    (new : Option Text) (t : Text) → IsTextIfAny new → IsText t → IsText (replaced_by new t)
replaced_by-IsText none t h k = k
replaced_by-IsText (some new) t h k = h

nonempty_str-IsTextIfAny : (v : Json) → IsTextIfAny (nonempty_str v)
unfolding nonempty_str
nonempty_str-IsTextIfAny (str t) = elim (Bool-cases (is_empty (strip t))) [
  | inl blank ↦ on_true IsTextIfAny blank _ _ tt
  | inr there ↦ on_false IsTextIfAny there _ _ there
]
nonempty_str-IsTextIfAny null = tt
nonempty_str-IsTextIfAny (bool b) = tt
nonempty_str-IsTextIfAny (int n) = tt
nonempty_str-IsTextIfAny (arr items) = tt
nonempty_str-IsTextIfAny (obj d) = tt

or_else-IsText :
    (first : Option Text) (t : Text)
    → IsTextIfAny first
    → IsText t
    → IsText (elim first [ some s ↦ s | none ↦ t ])
or_else-IsText none t h k = k
or_else-IsText (some s) t h k = h

keep-IsText :
    (first : Option Text) (s t : Text)
    → IsText s
    → IsText t
    → IsText (elim first [ some u ↦ s | none ↦ t ])
keep-IsText none s t h k = k
keep-IsText (some u) s t h k = h

take-IsText : (t : Text) → IsText t → IsText (take 2000 t)
take-IsText [] h = h
take-IsText (c ∷ t) h = refl

message_or-IsText : (s t : Text) → IsText t → IsText (message_or s t)
message_or-IsText [] t h = h
message_or-IsText (c ∷ s) t h = refl

module _ (py : Python) (writes : (n : ℤ) → IsText (py.py_str (int n))) where
  error_code_of-IsTextIfAny : (v : Json) → IsTextIfAny (error_code_of py v)
  unfolding error_code_of nonempty_str
  error_code_of-IsTextIfAny (int n) = writes n
  error_code_of-IsTextIfAny (str t) = nonempty_str-IsTextIfAny (str t)
  error_code_of-IsTextIfAny null = tt
  error_code_of-IsTextIfAny (bool b) = tt
  error_code_of-IsTextIfAny (arr items) = tt
  error_code_of-IsTextIfAny (obj d) = tt

  nested_code-IsText : (err : Fields) (code : Text) → IsText code → IsText (nested_code py err code)
  unfolding nested_code
  nested_code-IsText err code h =
      or_else-IsText (nonempty_str (value_of (codes "type") err)) _
        (nonempty_str-IsTextIfAny (value_of (codes "type") err))
        (replaced_by-IsText _ code (error_code_of-IsTextIfAny (value_of (codes "code") err)) h)

  with_metadata-AreTexts :
      (err meta : Fields) (code message : Text)
      → IsText code
      → IsText message
      → AreTexts (with_metadata py err meta (code, message))
  unfolding with_metadata
  with_metadata-AreTexts err meta code message h k = (
    keep-IsText (nonempty_str (value_of (codes "type") err)) code _ h (
        replaced_by-IsText _ code
          (error_code_of-IsTextIfAny (value_of (codes "provider_error_code") meta)) h),
    if_texts (mem (py.lower message) generic_error_messages) _ message
        (replaced_by-IsText _ message (nonempty_str-IsTextIfAny (value_of (codes "raw") meta)) k) k,
  )

  metadata-AreTexts :
      (meta : Json) (err : Fields) (code message : Text)
      → IsText code
      → IsText message
      → AreTexts
          (elim meta [ obj d ↦ with_metadata py err d (code, message) | _ ↦ (code, message) ])
  metadata-AreTexts (obj d) err code message h k = with_metadata-AreTexts err d code message h k
  metadata-AreTexts null err code message h k = (h, k)
  metadata-AreTexts (bool b) err code message h k = (h, k)
  metadata-AreTexts (int n) err code message h k = (h, k)
  metadata-AreTexts (str t) err code message h k = (h, k)
  metadata-AreTexts (arr items) err code message h k = (h, k)

  with_error-AreTexts :
      (v : Json) (code message : Text)
      → IsText code
      → IsText message
      → AreTexts (with_error py v (code, message))
  unfolding with_error
  with_error-AreTexts (obj err) code message h k =
      metadata-AreTexts (value_of (codes "metadata") err) err _ _ (nested_code-IsText err code h)
        (replaced_by-IsText _ message (nonempty_str-IsTextIfAny (value_of (codes "message") err)) k)
  with_error-AreTexts (str t) code message h k =
      (h, replaced_by-IsText _ message (nonempty_str-IsTextIfAny (str t)) k)
  with_error-AreTexts null code message h k = (h, k)
  with_error-AreTexts (bool b) code message h k = (h, k)
  with_error-AreTexts (int n) code message h k = (h, k)
  with_error-AreTexts (arr items) code message h k = (h, k)

  with_detail-IsText :
      (v : Json) (message : Text) → IsText message → IsText (with_detail py v message)
  unfolding with_detail
  with_detail-IsText (str t) message k =
      replaced_by-IsText _ message (nonempty_str-IsTextIfAny (str t)) k
  with_detail-IsText (arr items) message k =
      message_or-IsText (join_parts (detail_parts py items)) message k
  with_detail-IsText null message k = k
  with_detail-IsText (bool b) message k = k
  with_detail-IsText (int n) message k = k
  with_detail-IsText (obj d) message k = k

  with_payload-AreTexts :
      (payload : Fields) (code message : Text)
      → IsText code
      → IsText message
      → AreTexts (with_payload py payload (code, message))
  unfolding with_payload
  with_payload-AreTexts payload code message h k =
      let (h', k') = with_error-AreTexts (value_of (codes "error") payload) code message h k in
      (
        replaced_by-IsText _ _ (nonempty_str-IsTextIfAny (value_of (codes "code") payload)) h',
        with_detail-IsText (value_of (codes "detail") payload) _ (
            replaced_by-IsText _ _ (nonempty_str-IsTextIfAny (value_of (codes "message") payload))
              k'),
      )

  loaded-AreTexts :
      (loaded : Option Json) (code text : Text)
      → IsText code
      → IsText text
      → AreTexts (elim loaded [
        | some (obj payload) ↦ with_payload py payload (code, text)
        | _ ↦ (code, take 2000 text)
      ])
  loaded-AreTexts (some (obj payload)) code text h k = with_payload-AreTexts payload code text h k
  loaded-AreTexts none code text h k = (h, take-IsText text k)
  loaded-AreTexts (some null) code text h k = (h, take-IsText text k)
  loaded-AreTexts (some (bool b)) code text h k = (h, take-IsText text k)
  loaded-AreTexts (some (int n)) code text h k = (h, take-IsText text k)
  loaded-AreTexts (some (str t)) code text h k = (h, take-IsText text k)
  loaded-AreTexts (some (arr items)) code text h k = (h, take-IsText text k)

-- Whatever an upstream answers with a failing status, an empty body, a text, or JSON of any shape with whole numbers, the
-- code and the message that the client is told are not empty, if Python writes no integer as an empty
-- text.
pub parse_upstream_error-AreTexts :
    (py : Python) (body : Text) (http_status : ℕ)
    → ((n : ℤ) → IsText (py.py_str (int n)))
    → AreTexts (parse_upstream_error py body http_status)
unfolding parse_upstream_error
parse_upstream_error-AreTexts py body http_status writes =
    let text = strip body in
    elim (Bool-cases (is_empty text)) [
      | inl blank ↦ on_true AreTexts blank _ _ (refl, refl)
      | inr there ↦
          on_false AreTexts there _ _
            (loaded-AreTexts py writes (py.loads text) (http_code py http_status) text refl there)
    ]
