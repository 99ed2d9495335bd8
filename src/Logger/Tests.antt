-- ===== src/Logger/Tests.antt =====
-- The logger at concrete messages.
use interop.Base.{◌≡◌, refl, true, [], ◌∷◌, map, codes, some}
use mathlib.Core.List.{Perm}
use interop.Header
use interop.Headers.{get}
use interop.Message.{Message}
use interop.Messages.{message_id, message_class, message_error}
use interop.Values.{boolean}
use interop.Content.{call_unmarshal}
use interop.Content.Literals.{parse_literal, literal_runtime}
use interop.Decoder.{cannot_decode, decode}
use interop.Logger.{
  Logger, Reach, start, next, calls_write, create_rpc_logger, info, warn, write, write_line,
  read_line, text, header, content, decoding_error, has_type,
}
use interop.Logger.Writes.{Inv, reached-Inv, written-reordered}
use interop.Logger.Finish.{finish-all}

abbrev ping : Message
ping = record {
  headers =
      (Header.content_type, codes "application/json")
      ∷ (Header.class, codes "ping")
      ∷ (Header.id, codes "7.1")
      ∷ [];
  body = codes "true";
}

abbrev refusal : Message
refusal = record {
  headers =
      (Header.content_type, codes "text/xml")
      ∷ (Header.error, codes "no")
      ∷ (Header.id, codes "7.1")
      ∷ [];
  body = codes "<no/>";
}

ping_line : write_line literal_runtime info ping ≡ record {
  level = info;
  items =
      text (codes "%c%s")
      ∷ text (codes "background: black; font-weight: bold; color: #0877ab")
      ∷ text (codes "request")
      ∷ header (some (codes "ping"))
      ∷ header (some (codes "7.1"))
      ∷ content (boolean true)
      ∷ [];
}
unfolding write_line get message_id message_class decode call_unmarshal parse_literal
ping_line = refl

refusal_line :
    (read_line literal_runtime warn refusal).items
    ≡ text (codes "%c%s")
      ∷ text (codes "background: black; font-weight: bold; color: #ab0101")
      ∷ text (codes "error")
      ∷ header (some (codes "no"))
      ∷ text (codes "error decoding content")
      ∷ decoding_error (cannot_decode (codes "text/xml"))
      ∷ []
unfolding read_line get message_error decode
refusal_line = refl

one_write : Reach literal_runtime info (write literal_runtime info ping create_rpc_logger)
one_write = next start (calls_write ping)

reached-Inv_example : Inv literal_runtime info (write literal_runtime info ping create_rpc_logger)
reached-Inv_example =
    reached-Inv literal_runtime info (write literal_runtime info ping create_rpc_logger) one_write

written-reordered_example :
    (s : Logger _) × Reach literal_runtime info s
    × (s.calls ≡ ping ∷ refusal ∷ [])
    × (s.written ≡ refusal ∷ ping ∷ [])
unfolding has_type get
written-reordered_example = written-reordered literal_runtime info ping refusal refl

finish-all_example :
    let s = write literal_runtime info ping create_rpc_logger in
    (t : Logger _) × Reach literal_runtime info t
    × (t.calls ≡ s.calls)
    × Perm s.calls t.written
    × (t.lines ≡ map (write_line literal_runtime info) t.written)
finish-all_example =
    finish-all literal_runtime info (write literal_runtime info ping create_rpc_logger) one_write
