-- ===== src/Parse/RoundTrip.antt =====
-- What js/src/createBlobFromMessage.ts writes is what js/src/parseMessageFromBlob.ts reads back.
use Prim.Native.Nat.{min}
use interop.Base.{
  ◌+◌, ◌-◌, ◌≡◌, ◌≢◌, ◌⊎◌, inl, inr, refl, sym, ◌∙◌, [], ◌∷◌, ◌++◌, append_assoc, Str, Option, none,
  some, All, length, length-append, take-length_append, drop-length_append, pos, slice, slice_from,
  arith,
}
use interop.Text.{Platform}
use interop.Header
use interop.Headers.{get}
use interop.Headers.Laws.{IsPlain, from_entries-IsPlain}
use interop.Message.{Message, Blob}
use interop.Number.{parse_int}
use interop.Wire.{create_blob_from_message, extract_headers_from_blob}
use interop.Wire.Fields.{
  IsField, header_text, header_text-IsAscii, header_lines-text, extract-header_text, All-append,
}
use interop.Parse.{parse_message_from_blob, read_body, cut_body, ok}
use interop.Parse.Lines.{parse_lines-trim}

-- The Content-Length header, where there is one, is that of the body.
abbrev pub LengthFits : Message → Type 0
LengthFits m =
    (get Header.content_length m.headers ≡ none)
    ⊎ ((value : Str) × (get Header.content_length m.headers ≡ some value)
        × (parse_int value ≡ some (pos (length m.body))))

pub record IsSendable (platform : Platform) (m : Message) : Type 0 where
  pub some_header : m.headers ≢ []
  pub fields : All (IsField platform) m.headers
  pub plain : IsPlain m.headers
  pub length_fits : LengthFits m

-- Without a Content-Length the body that is read has the line feed that was written behind it.
abbrev pub received_body : Option Str → Blob → Blob
received_body none body = body ++ 10 ∷ []
received_body (some _) body = body

abbrev pub received : Message → Message
received m = record m { body = received_body (get Header.content_length m.headers) m.body }

slice_break :
    (body : Blob) → slice (body ++ 10 ∷ []) (pos (length body)) (pos (length body + 2)) ≡ 10 ∷ []
unfolding slice
slice_break body =
    let whole : length (body ++ 10 ∷ []) ≡ length body + 1 = length-append body (10 ∷ []) in
    let from : min (length body) (length body + 1) ≡ length body = omega arith in
    let size : min (length body + 2) (length body + 1) - length body ≡ 1 = omega arith in
    rw (whole, from, size, drop-length_append body (10 ∷ [])) refl

slice_body : (body : Blob) → slice (body ++ 10 ∷ []) (pos 0) (pos (length body)) ≡ body
unfolding slice
slice_body body =
    let size : min (length body) (length (body ++ 10 ∷ [])) ≡ length body =
      omega (arith, length-append body (10 ∷ [])) in
    let from : min 0 (length (body ++ 10 ∷ [])) ≡ 0 = omega arith in
    let rest : length body - 0 ≡ length body = omega arith in
    rw (size, from, rest) (take-length_append body (10 ∷ []))

slice_from-prefix : (xs ys : Blob) → slice_from (xs ++ ys) (pos (length xs)) ≡ ys
unfolding slice_from
slice_from-prefix xs ys =
    let from : min (length xs) (length (xs ++ ys)) ≡ length xs =
      omega (arith, length-append xs ys) in
    rw from (drop-length_append xs ys)

module _ (platform : Platform) where
  cut_body-append :
      (body : Blob) → cut_body platform (some (pos (length body))) (body ++ 10 ∷ []) ≡ ok body
  unfolding cut_body
  cut_body-append body =
      rw (slice_break body, cut_body)
        (rw (platform.decode_ascii (10 ∷ []) (omega arith)) (rw (slice_body body) refl))

  create-text :
      (m : Message)
      → All (IsField platform) m.headers
      → create_blob_from_message platform m ≡ header_text m.headers ++ 10 ∷ (m.body ++ 10 ∷ [])
  unfolding create_blob_from_message
  create-text m f =
      rw (header_lines-text platform m.headers f, platform.encode_ascii (10 ∷ []) (omega arith))
        refl

  read_body-received :
      (m : Message)
      → LengthFits m
      → read_body platform m.headers (m.body ++ 10 ∷ []) ≡ ok (received m).body
  unfolding read_body
  read_body-received m (inl e) = rw (e, read_body) refl
  read_body-received m (inr (value, e, n)) = rw (e, read_body) (rw n (cut_body-append m.body))

  -- A message with at least one header, whose fields are well formed and whose Content-Length, if
  -- it has one, is that of its body, is written and read back: the headers as they were, and the
  -- body as it was if there is a Content-Length, with one line feed more if there is none.
  pub parse-create :
      (m : Message)
      → IsSendable platform m
      → parse_message_from_blob platform (create_blob_from_message platform m) ≡ ok (received m)
  unfolding parse_message_from_blob
  parse-create m s =
      let text = header_text m.headers in
      let rest = m.body ++ 10 ∷ [] in
      let blob : create_blob_from_message platform m ≡ (text ++ 10 ∷ []) ++ rest =
        create-text m s.fields ∙ sym (append_assoc text (10 ∷ []) rest) in
      let header_blob : extract_headers_from_blob ((text ++ 10 ∷ []) ++ rest) ≡ text ++ 10 ∷ [] =
        rw (append_assoc text (10 ∷ []) rest)
          (extract-header_text platform m.headers rest s.some_header s.fields) in
      let header_string : platform.decode (text ++ 10 ∷ []) ≡ text ++ 10 ∷ [] =
        platform.decode_ascii (text ++ 10 ∷ []) (
          All-append _ text (10 ∷ []) (header_text-IsAscii platform m.headers s.fields)
            (omega arith, tt)) in
      rw
        (
          blob,
          header_blob,
          header_string,
          parse_lines-trim platform m.headers s.some_header s.fields,
          parse_message_from_blob,
        )
        (rw
          (
            from_entries-IsPlain m.headers s.plain,
            slice_from-prefix (text ++ 10 ∷ []) rest,
            read_body-received m s.length_fits,
          )
          refl)
