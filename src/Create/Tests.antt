-- ===== src/Create/Tests.antt =====
-- Messages created from concrete arguments.
use interop.Base.{ℕ, ◌≡◌, [], ◌∷◌, codes}
use interop.Message.{Message, Blob}
use interop.Dispatcher.{Decoded, decoded}
use interop.Values.{Value, string, function, object, blob_value, field, no_own}
use interop.Create.{create_message_base}
use interop.Create.Overloads.{create_message_base-blob}

abbrev json : Value
json = object (
    field (codes "name") (string (codes "application/json")) (
      field (codes "marshaler")
        (object
          (field (codes "marshal") (function 0) (field (codes "unmarshal") (function 1) no_own)))
        no_own))

abbrev class_headers : Value
class_headers = object (field (codes "Interop-Rpc-Class") (string (codes "foo")) no_own)

abbrev to_braces : Value → Value → Decoded Blob ℕ
to_braces f v = decoded (codes "{}")

create_message_base-blob_example :
    create_message_base to_braces (blob_value (codes "hi") ∷ [])
    ≡ decoded (record { headers = []; body = [] })
create_message_base-blob_example = create_message_base-blob to_braces (codes "hi")
