-- ===== src/Decoder/Tests.antt =====
-- Decoders at concrete messages.
use interop.Base.{◌≡◌, refl, [], ◌∷◌, codes}
use interop.Header
use interop.Headers.{get}
use interop.Message.{Message}
use interop.Dispatcher.{failed}
use interop.Content.{content_types}
use interop.Content.Literals.{literal_runtime}
use interop.Decoder.{create_decoder, decode, cannot_decode}
use interop.Decoder.Laws.{DecoderCases, create_decoder_cases}

abbrev json_message : Message
json_message = record {
  headers = (Header.content_type, codes "application/json") ∷ [];
  body = codes "true";
}

abbrev xml_message : Message
xml_message = record json_message { headers = (Header.content_type, codes "text/xml") ∷ [] }

create_decoder_cases_example :
    DecoderCases literal_runtime content_types xml_message
      (get Header.content_type xml_message.headers)
      (create_decoder literal_runtime content_types xml_message)
create_decoder_cases_example = create_decoder_cases literal_runtime content_types xml_message

xml_refused : decode literal_runtime xml_message ≡ failed (cannot_decode (codes "text/xml"))
unfolding decode get
xml_refused = refl
