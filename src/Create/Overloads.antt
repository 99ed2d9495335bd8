-- ===== src/Create/Overloads.antt =====
-- The overloads of createMessage in js/src/createMessage.ts: which of them its guards tell apart.
use interop.Base.{◌≡◌, ◌≢◌, refl, true, List, [], ◌∷◌, Str, length, some}
use interop.Header
use interop.Headers.{Headers, get, assign}
use interop.Message.{Message, Blob}
use interop.Number.{decimal}
use interop.Dispatcher.{Decoded, decoded}
use interop.Values.{
  Value, undefined, null, boolean, number, string, function, blob_value, object, array, is_headers,
  is_content_type, is_marshaler, all_strings, header_fields,
}
use interop.Create.{
  content_type_name, take_headers, take_body, marshal_content, create_message_base,
}

-- What a message created from headers and marshalled content carries.
pub record Carries (v : Value) (headers : Headers) (body : Blob) (m : Message) : Type 0 where
  pub has_body : m.body ≡ body
  pub has_type : get Header.content_type m.headers ≡ some (content_type_name v)
  pub has_length : get Header.content_length m.headers ≡ some (decimal (length body))
  pub keeps_headers :
      (key : Str)
      → key ≢ Header.content_type
      → key ≢ Header.content_length
      → get key m.headers ≡ get key headers

module _ {E : Type 0} (call : Value → Value → Decoded Blob E) where
  pub take_body-content_type :
      (headers : Headers) (v : Value) (args : List Value)
      → is_content_type v ≡ true
      → take_body call headers (v ∷ args) ≡ marshal_content call headers v args
  unfolding take_body is_content_type is_marshaler
  take_body-content_type headers undefined args h = cc
  take_body-content_type headers null args h = cc
  take_body-content_type headers (boolean b) args h = cc
  take_body-content_type headers (number n) args h = cc
  take_body-content_type headers (string s) args h = cc
  take_body-content_type headers (function f) args h = cc
  take_body-content_type headers (blob_value b) args h = cc
  take_body-content_type headers (array xs) args h = rw (h, take_body) refl
  take_body-content_type headers (object fields) args h = rw (h, take_body) refl

  -- createMessage of a blob alone makes a message with an empty body, whatever the blob is.
  pub create_message_base-blob :
      (body : Blob)
      → create_message_base call (blob_value body ∷ [])
        ≡ decoded (record { headers = []; body = [] })
  unfolding create_message_base take_headers is_headers all_strings header_fields take_body assign
  create_message_base-blob body = refl
