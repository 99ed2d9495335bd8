-- ===== src/Create.antt =====
-- js/src/createMessage.ts: the arguments are values of any type, which the guards of Values tell apart.
-- Calling a function is a parameter.
pub mod Overloads
mod Tests
use interop.Base.{Bool, true, false, List, [], ◌∷◌, Str, codes, length, if◌then◌else◌}
use interop.Header
use interop.Headers.{Headers, set, assign}
use interop.Message.{Message, Blob}
use interop.Number.{decimal}
use interop.Dispatcher.{Decoded, decoded, failed}
use interop.Values.{
  Value, blob_value, fields_of, field_of, text_of, is_headers, is_content_type, header_fields,
}

unfoldable pub content_type_name : Value → Str
unfolding field_of
content_type_name v = text_of (field_of (codes "name") (fields_of v))

unfoldable pub marshal_of : Value → Value
unfolding field_of
marshal_of v = field_of (codes "marshal") (fields_of (field_of (codes "marshaler") (fields_of v)))

-- The first `if`: the headers, and the arguments that are left.
unfoldable pub take_headers : List Value → Headers × List Value
unfolding is_headers header_fields
take_headers [] = ([], [])
take_headers (v ∷ args) =
    if is_headers v then (assign [] (header_fields (fields_of v)), args) else ([], v ∷ args)

module _ {E : Type 0} (call : Value → Value → Decoded Blob E) where
  -- The body of the third `if`, behind the shift.
  unfoldable pub marshal_content : Headers → Value → List Value → Decoded Message E
  unfolding content_type_name marshal_of
  marshal_content headers content_type [] = decoded (record {
    headers = set Header.content_type (content_type_name content_type) headers;
    body = [];
  })
  marshal_content headers content_type (content ∷ _) =
      elim (call (marshal_of content_type) content) [
        | failed e ↦ failed e
        | decoded body ↦ decoded (record {
          headers =
              set Header.content_length (decimal (length body))
                (set Header.content_type (content_type_name content_type) headers);
          body = body;
        })
      ]

  -- From the second `if` on.
  unfoldable pub take_body : Headers → List Value → Decoded Message E
  unfolding is_content_type marshal_content
  take_body headers (blob_value b ∷ args) = decoded (record { headers = headers; body = b })
  take_body headers [] = decoded (record { headers = headers; body = [] })
  take_body headers (v ∷ args) =
      if is_content_type v
      then marshal_content headers v args
      else decoded (record { headers = headers; body = [] })

  unfoldable pub create_message_base : List Value → Decoded Message E
  unfolding take_headers take_body
  create_message_base args = let (headers, rest) = take_headers args in take_body headers rest
