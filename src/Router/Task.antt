-- ===== src/Router/Task.antt =====
-- What the router reads of a request: the latest text of the user, and whether there are images.
use codex_shim.Prelude.{
  ℕ, Bool, true, false, ◌||◌, Option, none, some, List, [], ◌∷◌, ◌++◌, Text, codes, text_eq, strip,
  is_empty, length, if◌then◌else◌,
}
use codex_shim.Json.{
  Json, null, str, arr, obj, Items, nil, cons, Fields, end, field, find, of_items, truthy,
}
use codex_shim.Pipeline.Items.{field_of, text_field, is_text, has_type}
use codex_shim.Pipeline.Ids.{text_of}

-- value or ""
abbrev pub or_empty : (Json → Text) → Json → Text
or_empty py_str v = if truthy v then text_of py_str v else []

-- str(part.get("text") or part.get("content") or "")
unfoldable pub part_text : (Json → Text) → Fields → Text
unfolding find text_eq
part_text py_str part =
    let fallback : Text = elim (find (codes "content") part) [
      | none ↦ []
      | some v ↦ or_empty py_str v
    ] in
    elim (find (codes "text") part) [
      | none ↦ fallback
      | some v ↦ if truthy v then text_of py_str v else fallback
    ]

-- "\n".join(p for p in parts if p), one part more
abbrev pub join_line : Text → Text → Text
join_line [] rest = rest
join_line (c ∷ t) [] = c ∷ t
join_line (c ∷ t) (d ∷ rest) = (c ∷ t) ++ 10 ∷ d ∷ rest

unfoldable pub parts_text : (Json → Text) → Items → Text
unfolding part_text
parts_text py_str nil = []
parts_text py_str (cons (obj part) parts) =
    join_line (part_text py_str part) (parts_text py_str parts)
parts_text py_str (cons (str t) parts) = join_line t (parts_text py_str parts)
parts_text py_str (cons _ parts) = parts_text py_str parts

-- _content_text
unfoldable pub content_text : (Json → Text) → Json → Text
unfolding part_text parts_text
content_text py_str null = []
content_text py_str (str t) = t
content_text py_str (arr parts) = parts_text py_str parts
content_text py_str (obj part) = part_text py_str part
content_text py_str other = py_str other

abbrev pub field_or_null : Text → Json → Json
field_or_null k item = elim (field_of k item) [ none ↦ null | some v ↦ v ]

abbrev pub first_text : Option Text → Option Text → Option Text
first_text (some t) later = some t
first_text none later = later

abbrev pub if_nonblank : Text → Option Text
if_nonblank t = if is_empty (strip t) then none else some (strip t)

-- One item of `_latest_from_input`: `some` ends the loop.
unfoldable pub input_item_text : (Json → Text) → Json → Option Text
unfolding find text_eq text_field has_type content_text strip
input_item_text py_str (str t) = some (strip t)
input_item_text py_str (obj d) =
    let nested = if_nonblank (content_text py_str (field_or_null (codes "content") (obj d))) in
    let own = if_nonblank (content_text py_str (obj d)) in
    if is_text (codes "user") (text_field (codes "role") (obj d))
    then nested
    else if has_type (codes "input_text") (obj d) || has_type (codes "text") (obj d)
    then own
    else none
input_item_text py_str other = none

-- for item in reversed(items): the last one that gives a text
unfoldable pub last_text : (Json → Option Text) → List Json → Option Text
last_text f [] = none
last_text f (item ∷ items) = first_text (last_text f items) (f item)

abbrev pub or_blank : Option Text → Text
or_blank none = []
or_blank (some t) = t

-- _latest_from_input
unfoldable pub latest_from_input : (Json → Text) → Json → Text
unfolding strip last_text input_item_text
latest_from_input py_str (str t) = strip t
latest_from_input py_str (arr items) =
    or_blank (last_text (input_item_text py_str) (of_items items))
latest_from_input py_str other = []

unfoldable pub message_text : (Json → Text) → Json → Option Text
unfolding find text_eq text_field content_text strip
message_text py_str (obj d) =
    let text = if_nonblank (content_text py_str (field_or_null (codes "content") (obj d))) in
    if is_text (codes "user") (text_field (codes "role") (obj d)) then text else none
message_text py_str other = none

-- _latest_from_messages
unfoldable pub latest_from_messages : (Json → Text) → Json → Text
unfolding last_text message_text
latest_from_messages py_str (arr items) =
    or_blank (last_text (message_text py_str) (of_items items))
latest_from_messages py_str other = []

unfoldable pub latest_user_text : (Json → Text) → Json → Text
unfolding latest_from_input latest_from_messages
latest_user_text py_str body =
    let text = latest_from_input py_str (field_or_null (codes "input") body) in
    let fallback = latest_from_messages py_str (field_or_null (codes "messages") body) in
    if is_empty text then fallback else text

-- whether a key is there
abbrev pub has_key : Text → Fields → Bool
has_key k d = elim (find k d) [ none ↦ false | some v ↦ true ]

-- _value_has_image; a `type` that is no string is neither of the two names
unfoldable mutual
  unfolding find text_eq has_type

  pub value_has_image : Json → Bool
  value_has_image (obj d) =
      has_type (codes "input_image") (obj d)
      || has_type (codes "image_url") (obj d)
      || has_key (codes "image_url") d
      || fields_have_image d
  value_has_image (arr items) = items_have_image items
  value_has_image _ = false

  pub items_have_image : Items → Bool
  items_have_image nil = false
  items_have_image (cons v items) = value_has_image v || items_have_image items

  pub fields_have_image : Fields → Bool
  fields_have_image end = false
  fields_have_image (field k v d) = value_has_image v || fields_have_image d

unfoldable pub has_images : Json → Bool
unfolding value_has_image
has_images body =
    value_has_image (field_or_null (codes "input") body)
    || value_has_image (field_or_null (codes "messages") body)

pub record Signal : Type 0 where
  pub task : Text
  pub images : Bool
  pub tool_count : ℕ
  pub input_items : ℕ

-- the length of a list, 0 for another value
abbrev pub list_size : Json → ℕ
list_size (arr items) = length (of_items items)
list_size _ = 0

abbrev pub count_input : Json → Json → ℕ
count_input (arr items) messages = length (of_items items)
count_input input messages = if truthy input then 1 else list_size messages

unfoldable pub task_signal : (Json → Text) → Json → Signal
unfolding latest_user_text has_images
task_signal py_str body = record {
  task = latest_user_text py_str body;
  images = has_images body;
  tool_count = list_size (field_or_null (codes "tools") body);
  input_items =
      count_input (field_or_null (codes "input") body) (field_or_null (codes "messages") body);
}
