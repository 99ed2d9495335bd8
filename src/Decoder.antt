-- ===== src/Decoder.antt =====
-- js/src/createDecoder.ts: a message's body is read by the content type that its header names.
pub mod Laws
mod Tests
use interop.Base.{
  Bool, true, false, List, [], ◌∷◌, Str, codes, str_eq, Option, none, some, if◌then◌else◌,
}
use interop.Header
use interop.Headers.{get}
use interop.Message.{Message}
use interop.Dispatcher.{Decoded, decoded, failed}
use interop.Values.{Value, string, fields_of, field_of}
use interop.Content.{Runtime, call_unmarshal, content_types}

pub data DecodeError (E : Type 0) : Type 0 where
  cannot_decode : Str → DecodeError E
  no_content_type : DecodeError E
  unmarshal_error : E → DecodeError E

-- `value === text`
abbrev pub is_the_text : Value → Str → Bool
is_the_text (string s) t = str_eq s t
is_the_text _ t = false

-- `contentTypes.find(t => t.name === typeName)`
unfoldable pub find_type : Str → List Value → Option Value
unfolding field_of str_eq
find_type type_name [] = none
find_type type_name (t ∷ types) =
    if is_the_text (field_of (codes "name") (fields_of t)) type_name
    then some t
    else find_type type_name types

-- `typeof typeName === 'string' && ...`
unfoldable pub type_of_name : Option Str → List Value → Option Value
unfolding find_type
type_of_name none types = none
type_of_name (some type_name) types = find_type type_name types

unfoldable pub unmarshal_of : Value → Value
unfolding field_of
unmarshal_of t =
    field_of (codes "unmarshal") (fields_of (field_of (codes "marshaler") (fields_of t)))

-- The errors at the end; the empty name counts as none.
abbrev pub decode_error : {E : Type 0} → Option Str → DecodeError E
decode_error none = no_content_type
decode_error (some []) = no_content_type
decode_error (some (c ∷ s)) = cannot_decode (c ∷ s)

abbrev pub unmarshalled : {E : Type 0} → Decoded Value E → Decoded Value (DecodeError E)
unmarshalled (decoded v) = decoded v
unmarshalled (failed error) = failed (unmarshal_error error)

module _ {E : Type 0} (runtime : Runtime E) where
  unfoldable pub create_decoder : List Value → Message → Decoded Value (DecodeError E)
  unfolding type_of_name unmarshal_of
  create_decoder types m =
      let type_name = get Header.content_type m.headers in
      elim (type_of_name type_name types) [
        | some t ↦ unmarshalled (call_unmarshal runtime (unmarshal_of t) m.body)
        | none ↦ failed (decode_error type_name)
      ]

  unfoldable pub decode : Message → Decoded Value (DecodeError E)
  unfolding create_decoder
  decode = create_decoder content_types

abbrev pub null_decoder : {E : Type 0} → Message → Decoded Message E
null_decoder m = decoded m
