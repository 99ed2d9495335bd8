-- ===== src/Values.antt =====
-- JavaScript's values, as far as the program tells them apart: isObj of js/src/utilities.ts, isHeaders
-- of Headers.ts, isMessage of Message.ts, isMarshaler of Marshaler.ts and isContentType of
-- ContentType.ts. An object has its own fields, in order, and an array its elements; a blob has none.
-- Functions are known by numbers.
use interop.Base.{
  ℕ, suc, ℤ, Bool, true, false, ◌&&◌, List, [], ◌∷◌, Str, codes, str_eq, if◌then◌else◌,
}
use interop.Message.{Blob}
use interop.Number.{decimal}

mutual
  pub data Value : Type 0 where
    undefined null : Value
    boolean : Bool → Value
    number : ℤ → Value
    string : Str → Value
    function : ℕ → Value
    blob_value : Blob → Value
    array : Elements → Value
    object : Fields → Value

  pub data Fields : Type 0 where
    no_own : Fields
    field : Str → Value → Fields → Fields

  pub data Elements : Type 0 where
    no_elements : Elements
    element : Value → Elements → Elements

abbrev pub is_string_value : Value → Bool
is_string_value (string s) = true
is_string_value _ = false

abbrev pub is_function : Value → Bool
is_function (function f) = true
is_function _ = false

-- `typeof x === 'object' && x !== null`
abbrev pub is_obj : Value → Bool
is_obj (object fields) = true
is_obj (array xs) = true
is_obj (blob_value b) = true
is_obj _ = false

-- The elements of an array are its fields, under their indices.
unfoldable pub index_fields : ℕ → Elements → Fields
index_fields i no_elements = no_own
index_fields i (element v xs) = field (decimal i) v (index_fields (suc i) xs)

-- The own enumerable fields, which Object.keys names.
abbrev pub fields_of : Value → Fields
fields_of (object fields) = fields
fields_of (array xs) = index_fields 0 xs
fields_of _ = no_own

-- `obj[key]`, for a key that no prototype has.
unfoldable pub field_of : Str → Fields → Value
field_of key no_own = undefined
field_of key (field k v fields) = if str_eq k key then v else field_of key fields

unfoldable pub all_strings : Fields → Bool
all_strings no_own = true
all_strings (field k v fields) = is_string_value v && all_strings fields

unfoldable pub is_headers : Value → Bool
unfolding all_strings
is_headers v = is_obj v && all_strings (fields_of v)

unfoldable pub is_marshaler : Value → Bool
unfolding field_of
is_marshaler v =
    is_obj v
    && is_function (field_of (codes "marshal") (fields_of v))
    && is_function (field_of (codes "unmarshal") (fields_of v))

unfoldable pub is_content_type : Value → Bool
unfolding field_of is_marshaler
is_content_type v =
    is_obj v
    && is_string_value (field_of (codes "name") (fields_of v))
    && is_marshaler (field_of (codes "marshaler") (fields_of v))

abbrev pub text_of : Value → Str
text_of (string s) = s
text_of _ = []

unfoldable pub header_fields : Fields → List (Str × Str)
header_fields no_own = []
header_fields (field k v fields) = (k, text_of v) ∷ header_fields fields

abbrev pub is_blob : Value → Bool
is_blob (blob_value b) = true
is_blob _ = false

unfoldable pub is_message : Value → Bool
unfolding is_headers field_of
is_message v =
    is_obj v
    && is_blob (field_of (codes "body") (fields_of v))
    && is_headers (field_of (codes "headers") (fields_of v))
