-- ===== src/Parse/Tests.antt =====
-- Reading and writing messages at concrete inputs, among them those of
-- js/src/parseMessageFromBlob.spec.ts and js/src/createBlobFromMessage.spec.ts.
use interop.Base.{
  str_eq, true, some, take, ℕ, ◌≡◌, ◌≢◌, refl, List, [], ◌∷◌, Str, codes, inr, length, arith, slice,
}
use interop.Text.{
  split_words, canonicalize_key, trim, split_lines, index_of, is_space, trim_start, trim_end,
}
use interop.Text.Canonical.{ascii_only, all_ascii}
use interop.Header
use interop.Headers.{from_entries, get, array_index, has}
use interop.Message.{Message, Blob}
use interop.Number.{parse_int, signed, unsigned, leading_digits}
use interop.Wire.{
  create_blob_from_message, ends_with_double_line_break, extract_headers_from_blob, header_lines,
}
use interop.Wire.Chunk.{scan_bytes}
use interop.Wire.Scan.{extract-scan_bytes}
use interop.Wire.Fields.{IsField}
use interop.Parse.{
  parse_message_from_blob, ok, err, expected_colon, read_body, cut_body, parse_lines, parse_line,
}
use interop.Parse.RoundTrip.{IsSendable, parse-create}
use interop.Messages.{text, message_header}
use interop.Prototype.{is_one_of}
use interop.Parse.Names.{AsciiNames, header_lines_of, message_header-parsed}
use interop.Parse.Errors.{LinesRead, parse_lines_cases, parse-headers-ne, parse-content_length}

abbrev spec_blob : Blob
spec_blob =
    codes
      "Content-Type: application/json\nContent-length: 13\nThing: with:colon\n\n{\"foo\":\"bar\"}\n"

abbrev spec_message : Message
spec_message = record {
  headers =
      (Header.content_type, codes "application/json")
      ∷ (Header.content_length, codes "13")
      ∷ (codes "Thing", codes "with:colon")
      ∷ [];
  body = codes "{\"foo\":\"bar\"}";
}

-- All that reading runs through.
abbrev reads : ℕ → ℕ
unfolding parse_message_from_blob read_body parse_int signed unsigned leading_digits cut_body
    parse_lines parse_line extract_headers_from_blob canonicalize_key trim split_lines index_of
    from_entries get ends_with_double_line_break slice
reads n = n

parse_spec : parse_message_from_blob ascii_only spec_blob ≡ ok spec_message
unfolding reads
parse_spec = refl

-- createBlobFromMessage.spec.ts
create_lem :
    create_blob_from_message ascii_only (record {
      headers = (Header.class, codes "foo") ∷ (Header.id, codes "bar") ∷ [];
      body = codes "baz";
    })
    ≡ codes "Interop-Rpc-Class: foo\nInterop-Rpc-Id: bar\n\nbaz\n"
unfolding create_blob_from_message header_lines
create_lem = refl

-- A message without headers is not even read back: its body is taken for headers.
no_headers_refused :
    parse_message_from_blob ascii_only
      (create_blob_from_message ascii_only (record { headers = []; body = codes "hi" }))
    ≡ err (expected_colon (codes "hi"))
unfolding reads create_blob_from_message header_lines
no_headers_refused = refl

type-IsField : IsField ascii_only (Header.content_type, codes "application/json")
unfolding canonicalize_key is_space trim_start trim_end
type-IsField = record {
  named = λ e. cc;
  name_ascii = omega arith;
  name_chars = ground arith;
  canonical = refl;
  value_ascii = omega arith;
  one_line = ground arith;
  trimmed_start = refl;
  trimmed_end = refl;
}

length-IsField : IsField ascii_only (Header.content_length, codes "13")
unfolding canonicalize_key is_space trim_start trim_end
length-IsField = record {
  named = λ e. cc;
  name_ascii = omega arith;
  name_chars = ground arith;
  canonical = refl;
  value_ascii = omega arith;
  one_line = ground arith;
  trimmed_start = refl;
  trimmed_end = refl;
}

abbrev sent : Message
sent = record {
  headers =
      (Header.content_type, codes "application/json") ∷ (Header.content_length, codes "13") ∷ [];
  body = codes "{\"foo\":\"bar\"}";
}

sent-IsSendable : IsSendable ascii_only sent
unfolding get array_index has parse_int signed unsigned leading_digits trim_start
sent-IsSendable = record {
  some_header = λ e. cc;
  fields = (type-IsField, (length-IsField, tt));
  plain = (refl, refl, (refl, refl, tt));
  length_fits = inr (codes "13", refl, refl);
}

parse-create_example :
    parse_message_from_blob ascii_only (create_blob_from_message ascii_only sent) ≡ ok sent
unfolding get
parse-create_example = parse-create ascii_only sent sent-IsSendable

extract-scan_bytes_example : extract_headers_from_blob spec_blob ≡ scan_bytes [] spec_blob []
extract-scan_bytes_example = extract-scan_bytes spec_blob

parse-headers-ne_example : spec_message.headers ≢ []
parse-headers-ne_example = parse-headers-ne ascii_only spec_blob spec_message parse_spec

parse-content_length_example : length spec_message.body ≡ 13
unfolding get parse_int signed unsigned leading_digits trim_start
parse-content_length_example =
    parse-content_length ascii_only spec_blob spec_message (codes "13") 13 parse_spec refl refl

abbrev mixed_lines : List Str
mixed_lines = codes "a: b" ∷ codes "no colon" ∷ codes "c" ∷ []

parse_lines_cases_example : LinesRead ascii_only mixed_lines
parse_lines_cases_example = parse_lines_cases ascii_only mixed_lines

parse_lines_mixed : parse_lines ascii_only mixed_lines ≡ err (expected_colon (codes "no colon"))
unfolding reads
parse_lines_mixed = refl

-- A line whose name is seen to be ASCII.
name_is_ascii :
    (line : Str) (n : ℕ)
    → index_of b':' line ≡ some n
    → all_ascii (take n line) ≡ true
    → (i : ℕ) → index_of b':' line ≡ some i
    → all_ascii (take i line) ≡ true
name_is_ascii line n h a i e = ground arith

spec_blob-AsciiNames : AsciiNames (header_lines_of ascii_only spec_blob)
unfolding reads
spec_blob-AsciiNames = (
  name_is_ascii (codes "Content-Type: application/json") 12 refl refl,
  (
    name_is_ascii (codes "Content-length: 13") 14 refl refl,
    (name_is_ascii (codes "Thing: with:colon") 5 refl refl, tt),
  ),
)

message_header-parsed_example :
    message_header ascii_only spec_message (codes "CONTENT_ length") ≡ text (codes "13")
unfolding reads split_words is_one_of str_eq
message_header-parsed_example =
    message_header-parsed ascii_only (codes "CONTENT_ length") refl spec_blob spec_message
      parse_spec spec_blob-AsciiNames
