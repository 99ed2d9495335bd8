-- ===== src/Delivery/Content.antt =====
-- Content that one side marshals is what the other side decodes.
use interop.Base.{
  false, ◌≡◌, refl, ◌∙◌, ap, arith, true, [], ◌∷◌, Str, str_eq, codes, All, some, length,
}
use interop.Text.{Platform, trim_start, trim_end, is_space}
use interop.Header
use interop.Headers.{Headers, get, set, assign, from_entries}
use interop.Headers.Laws.{IsPlain, get-set, from_entries-IsPlain}
use interop.Message.{Message, Blob}
use interop.Number.{decimal}
use interop.Dispatcher.{Decoded, decoded}
use interop.Values.{
  Value, undefined, null, boolean, number, string, function, blob_value, array, object, fields_of,
  header_fields, is_headers, is_content_type, is_marshaler, field_of,
}
use interop.Create.{
  create_message_base, take_headers, marshal_content, marshal_of, content_type_name,
}
use interop.Create.Overloads.{take_body-content_type}
use interop.Wire.{create_blob_from_message}
use interop.Wire.Fields.{IsField}
use interop.Parse.{parse_message_from_blob, ok}
use interop.Parse.RoundTrip.{parse-create, received}
use interop.Content.{
  Runtime, is_json, or_null, json_type, json_marshal, json_unmarshal, call_marshal, call_unmarshal,
}
use interop.Decoder.{decode, create_decoder, unmarshalled, type_of_name, find_type, unmarshal_of}
use interop.Delivery.Sendable.{IsFieldValue, content-IsSendable}

-- The message of headers, the name of a content type and a body.
abbrev pub with_content : Headers → Str → Blob → Message
with_content headers name body = record {
  headers =
      set Header.content_length (decimal (length body)) (set Header.content_type name headers);
  body = body;
}

module _ {E : Type 0} (call : Value → Value → Decoded Blob E) where
  create_message_base-content :
      (h t v : Value) (body : Blob)
      → is_headers h ≡ true
      → is_content_type t ≡ true
      → IsPlain (header_fields (fields_of h))
      → call (marshal_of t) v ≡ decoded body
      → create_message_base call (h ∷ t ∷ v ∷ [])
        ≡ decoded (with_content (header_fields (fields_of h)) (content_type_name t) body)
  unfolding create_message_base marshal_content
  create_message_base-content h t v body is_h is_t plain e =
      let copy : assign [] (header_fields (fields_of h)) ≡ header_fields (fields_of h) =
        unfold from_entries in from_entries-IsPlain (header_fields (fields_of h)) plain in
      rw (is_h, take_headers)
        (take_body-content_type call _ t (v ∷ []) is_t
          ∙ rw (e, marshal_content)
              (ap (λ (k : Headers). decoded (with_content k (content_type_name t) body)) copy))

pub get-content_type :
    (headers : Headers) (name : Str) (body : Blob)
    → get Header.content_type (with_content headers name body).headers ≡ some name
unfolding str_eq
get-content_type headers name body =
    get-set Header.content_length Header.content_type (decimal (length body)) _
    ∙ get-set Header.content_type Header.content_type name headers

-- The headers but for those of the content are those given.
pub get-with_content :
    (key : Str) (headers : Headers) (name : Str) (body : Blob)
    → str_eq Header.content_type key ≡ false
    → str_eq Header.content_length key ≡ false
    → get key (with_content headers name body).headers ≡ get key headers
get-with_content key headers name body not_type not_length =
    get-set Header.content_length key (decimal (length body)) _
    ∙ rw not_length (get-set Header.content_type key name headers ∙ rw not_type refl)

-- With its Content-Length, a message is received as it was made.
received-content :
    (headers : Headers) (name : Str) (body : Blob)
    → received (with_content headers name body) ≡ with_content headers name body
unfolding str_eq
received-content headers name body =
    rw
      (get-set Header.content_length Header.content_length (decimal (length body))
        (set Header.content_type name headers))
      refl

-- Whatever the content type, what is written is read back.
pub content-received :
    (platform : Platform) (headers : Headers) (name : Str) (body : Blob)
    → All (IsField platform) headers
    → IsPlain headers
    → IsFieldValue name
    → parse_message_from_blob platform
        (create_blob_from_message platform (with_content headers name body))
      ≡ ok (with_content headers name body)
content-received platform headers name body fields plain v =
    parse-create platform (with_content headers name body)
      (content-IsSendable platform headers name body fields plain v)
    ∙ ap ok (received-content headers name body)

or_null-is_json : (v : Value) → is_json v ≡ true → or_null v ≡ v
unfolding is_json
or_null-is_json undefined h = cc
or_null-is_json null h = refl
or_null-is_json (boolean b) h = refl
or_null-is_json (number n) h = refl
or_null-is_json (string s) h = refl
or_null-is_json (function f) h = refl
or_null-is_json (blob_value b) h = refl
or_null-is_json (array xs) h = refl
or_null-is_json (object fields) h = refl

pub json_type-IsFieldValue : IsFieldValue (codes "application/json")
unfolding trim_start trim_end is_space
json_type-IsFieldValue = record {
  value_ascii = omega arith;
  one_line = ground arith;
  trimmed_start = refl;
  trimmed_end = refl;
}

module _ {E : Type 0} (runtime : Runtime E) where
  json_marshal-text :
      (v : Value) (text : Str)
      → is_json v ≡ true
      → runtime.json.stringify v ≡ decoded (some text)
      → json_marshal runtime v ≡ decoded (runtime.platform.encode text)
  unfolding json_marshal
  json_marshal-text v text j e = rw (or_null-is_json v j, e, json_marshal) refl

  pub decode-json :
      (headers : Headers) (body : Blob)
      → decode runtime (with_content headers (codes "application/json") body)
        ≡ unmarshalled (json_unmarshal runtime body)
  unfolding decode create_decoder type_of_name call_unmarshal find_type unmarshal_of field_of str_eq
  decode-json headers body =
      rw (get-content_type headers (codes "application/json") body, create_decoder) refl

  pub json_unmarshal-text :
      (v : Value) (text : Str)
      → is_json v ≡ true
      → runtime.json.stringify v ≡ decoded (some text)
      → json_unmarshal runtime (runtime.platform.encode text) ≡ decoded v
  unfolding json_unmarshal
  json_unmarshal-text v text j e =
      rw
        (
          runtime.platform.decode-encode text (runtime.json.stringify_well_formed v text e),
          json_unmarshal,
        )
        (runtime.json.parse-stringify v text j e)

  -- For headers whose fields can be written and read back, and a value that JSON can carry and is
  -- turned into text: createMessage with the headers, ContentTypes.json and the value makes a
  -- message that is written and read back as it was, and decode of it gives the value.
  pub json_content-delivered :
      (h v : Value) (text : Str)
      → is_headers h ≡ true
      → All (IsField runtime.platform) (header_fields (fields_of h))
      → IsPlain (header_fields (fields_of h))
      → is_json v ≡ true
      → runtime.json.stringify v ≡ decoded (some text)
      → (m : Message) × (create_message_base (call_marshal runtime) (h ∷ json_type ∷ v ∷ [])
          ≡ decoded m)
        × (parse_message_from_blob runtime.platform (create_blob_from_message runtime.platform m)
            ≡ ok m)
        × (decode runtime m ≡ decoded v)
  unfolding call_marshal marshal_of is_content_type is_marshaler field_of str_eq content_type_name
  json_content-delivered h v text is_h fields plain j e =
      let headers = header_fields (fields_of h) in
      let body = runtime.platform.encode text in
      let m = with_content headers (codes "application/json") body in
      (
        m,
        create_message_base-content (call_marshal runtime) h json_type v body is_h refl plain
            (json_marshal-text v text j e),
        content-received runtime.platform headers _ body fields plain json_type-IsFieldValue,
        decode-json headers body ∙ ap unmarshalled (json_unmarshal-text v text j e),
      )
