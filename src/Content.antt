-- ===== src/Content.antt =====
-- js/src/marshalers.ts and js/src/ContentTypes.ts: values as blobs, and blobs as values. JSON, `String`
-- and the functions of the program's user are the environment's: an interface, with the laws of JSON
-- that the theorems rely on. Buffers and typed arrays are not among the values.
pub mod Literals
use interop.Base.{
  ℕ, ◌≡◌, Bool, true, false, ◌&&◌, List, [], ◌∷◌, Str, str_eq, codes, Option, none, some, ◌==◌,
  if◌then◌else◌,
}
use interop.Text.{Platform, is_well_formed}
use interop.Headers.{array_index}
use interop.Message.{Blob}
use interop.Dispatcher.{Decoded, decoded, failed}
use interop.Values.{
  Value, undefined, null, boolean, number, string, function, blob_value, array, object, Fields,
  no_own, field, Elements, no_elements, element,
}

-- A key that stands for no array index, and does not stand in the fields.
unfoldable pub is_fresh_key : Str → Fields → Bool
is_fresh_key key no_own = true
is_fresh_key key (field k v fields) = if str_eq k key then false else is_fresh_key key fields

unfoldable pub is_plain_key : Str → Fields → Bool
unfolding is_fresh_key
is_plain_key key fields = elim (array_index key) [ none ↦ is_fresh_key key fields | some _ ↦ false ]

-- The values that JSON can carry. Of objects, those whose keys stand once and are no indices.
unfoldable mutual
  unfolding is_plain_key

  pub is_json : Value → Bool
  is_json undefined = false
  is_json null = true
  is_json (boolean b) = true
  is_json (number n) = true
  is_json (string s) = true
  is_json (function f) = false
  is_json (blob_value b) = false
  is_json (array xs) = are_json xs
  is_json (object fields) = have_json fields

  pub are_json : Elements → Bool
  are_json no_elements = true
  are_json (element v xs) = is_json v && are_json xs

  pub have_json : Fields → Bool
  have_json no_own = true
  have_json (field k v fields) = is_plain_key k fields && is_json v && have_json fields

-- JSON.stringify, where `none` is `undefined`, and JSON.parse; both may throw.
pub record Json (E : Type 0) : Type 0 where
  pub stringify : Value → Decoded (Option Str) E
  pub parse : Str → Decoded Value E
  pub stringify_well_formed :
      (v : Value) (s : Str) → stringify v ≡ decoded (some s) → is_well_formed s ≡ true
  pub parse-stringify :
      (v : Value) (s : Str)
      → is_json v ≡ true
      → stringify v ≡ decoded (some s)
      → parse s ≡ decoded v

pub record Runtime (E : Type 0) : Type 0 where
  pub platform : Platform
  pub json : Json E
  pub string_of : Value → Str
  pub user_marshal : ℕ → Value → Decoded Blob E
  pub user_unmarshal : ℕ → Blob → Decoded Value E
  -- The error of calling what is no function.
  pub type_error : E

abbrev pub or_null : Value → Value
or_null undefined = null
or_null v = v

-- `new Blob([undefined])` holds the text "undefined".
abbrev pub json_text : Option Str → Str
json_text none = codes "undefined"
json_text (some s) = s

abbrev pub is_blob_part : Value → Bool
is_blob_part (string s) = true
is_blob_part (blob_value b) = true
is_blob_part _ = false

-- A content type of js/src/ContentTypes.ts, whose marshaler has the functions of the numbers.
abbrev pub make : Str → ℕ → ℕ → Value
make name marshal unmarshal = object (
    field (codes "name") (string name) (
      field (codes "marshaler")
        (object (
          field (codes "marshal") (function marshal)
            (field (codes "unmarshal") (function unmarshal) no_own)))
        no_own))

abbrev pub json_type : Value
json_type = make (codes "application/json") 0 1

abbrev pub binary_type : Value
binary_type = make (codes "application/octet-stream") 2 3

abbrev pub content_types : List Value
content_types = json_type ∷ binary_type ∷ []

module _ {E : Type 0} (runtime : Runtime E) where
  unfoldable pub json_marshal : Value → Decoded Blob E
  json_marshal v = elim (runtime.json.stringify (or_null v)) [
    | failed error ↦ failed error
    | decoded text ↦ decoded (runtime.platform.encode (json_text text))
  ]

  unfoldable pub json_unmarshal : Blob → Decoded Value E
  json_unmarshal blob = runtime.json.parse (runtime.platform.decode blob)

  -- `new Blob([part])`
  unfoldable pub blob_of : Value → Blob
  blob_of (blob_value b) = b
  blob_of (string s) = runtime.platform.encode s
  blob_of v = runtime.platform.encode (runtime.string_of v)

  unfoldable pub null_marshal : Value → Decoded Blob E
  unfolding blob_of
  null_marshal v = decoded (blob_of (if is_blob_part v then v else string (runtime.string_of v)))

  abbrev pub null_unmarshal : Blob → Decoded Value E
  null_unmarshal blob = decoded (blob_value blob)

  -- The call of a marshaler's `marshal`.
  unfoldable pub call_marshal : Value → Value → Decoded Blob E
  unfolding json_marshal null_marshal
  call_marshal (function f) v =
      if f == 0 then json_marshal v else if f == 2 then null_marshal v else runtime.user_marshal f v
  call_marshal _ v = failed runtime.type_error

  -- The call of a marshaler's `unmarshal`.
  unfoldable pub call_unmarshal : Value → Blob → Decoded Value E
  unfolding json_unmarshal
  call_unmarshal (function f) blob =
      if f == 1
      then json_unmarshal blob
      else if f == 3
      then null_unmarshal blob
      else runtime.user_unmarshal f blob
  call_unmarshal _ blob = failed runtime.type_error
