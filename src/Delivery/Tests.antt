-- ===== src/Delivery/Tests.antt =====
-- Content on its way, at concrete values.
use interop.Base.{◌≡◌, refl, true, arith, [], ◌∷◌, codes}
use interop.Text.{canonicalize_key, is_space, trim_start, trim_end}
use interop.Text.Canonical.{ascii_only}
use interop.Header
use interop.Headers.{has, array_index}
use interop.Message.{Message}
use interop.Dispatcher.{decoded}
use interop.Values.{
  Value, boolean, string, object, field, no_own, is_headers, all_strings, header_fields,
}
use interop.Create.{create_message_base}
use interop.Wire.{create_blob_from_message}
use interop.Wire.Fields.{IsField}
use interop.Parse.{parse_message_from_blob, ok}
use interop.Content.{json_type, call_marshal, is_json}
use interop.Content.Literals.{literal_runtime}
use interop.Decoder.{decode}
use interop.Delivery.Content.{json_content-delivered}

abbrev class_headers : Value
class_headers = object (field Header.class (string (codes "foo")) no_own)

class-IsField : IsField ascii_only (Header.class, codes "foo")
unfolding canonicalize_key is_space trim_start trim_end
class-IsField = record {
  named = λ e. cc;
  name_ascii = omega arith;
  name_chars = ground arith;
  canonical = refl;
  value_ascii = omega arith;
  one_line = ground arith;
  trimmed_start = refl;
  trimmed_end = refl;
}

json_content-delivered_example :
    (m : Message) × (create_message_base
        (call_marshal literal_runtime)
        (class_headers ∷ json_type ∷ boolean true ∷ [])
      ≡ decoded m)
    × (parse_message_from_blob ascii_only (create_blob_from_message ascii_only m) ≡ ok m)
    × (decode literal_runtime m ≡ decoded (boolean true))
unfolding is_headers all_strings header_fields has array_index is_json
json_content-delivered_example =
    json_content-delivered literal_runtime class_headers (boolean true) (codes "true") refl
      (class-IsField, tt) (refl, refl, tt) refl refl
