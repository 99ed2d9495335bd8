-- ===== src/Delivery/Sendable.antt =====
-- A message with content that js/src/createMessage.ts makes can be written and read back.
use interop.Base.{str_eq, ℕ, ◌≡◌, ◌≢◌, refl, inr, true, [], ◌∷◌, Str, All, length, arith}
use interop.Text.{Platform, IsAscii, is_space, trim_start, trim_end, canonicalize_key}
use interop.Text.Lines.{NoLineFeed}
use interop.Text.Canonical.{canonicalize_key-ascii, all_ascii, all_ascii-IsAscii}
use interop.Header
use interop.Headers.{Headers, set, array_index}
use interop.Headers.Laws.{IsPlain, get-set}
use interop.Headers.Entries.{set-All, set-IsPlain, set-ne}
use interop.Message.{Blob}
use interop.Number.{decimal}
use interop.Number.Decimal.{IsDigit, decimal-IsDigit, parse_int-decimal}
use interop.Wire.Fields.{IsField, IsNameChar}
use interop.Parse.RoundTrip.{IsSendable}

-- A value that a header line can carry as it is.
pub record IsFieldValue (value : Str) : Type 0 where
  pub value_ascii : IsAscii value
  pub one_line : NoLineFeed value
  pub trimmed_start : trim_start value ≡ value
  pub trimmed_end : trim_end value ≡ value

digits-IsAscii : (s : Str) → All IsDigit s → IsAscii s
digits-IsAscii [] d = tt
digits-IsAscii (c ∷ s) (d, ds) = (omega arith, digits-IsAscii s ds)

digits-NoLineFeed : (s : Str) → All IsDigit s → NoLineFeed s
digits-NoLineFeed [] d = tt
digits-NoLineFeed (c ∷ s) (d, ds) = (ground arith, digits-NoLineFeed s ds)

digits-trim_start : (s : Str) → All IsDigit s → trim_start s ≡ s
unfolding trim_start is_space
digits-trim_start [] d = refl
digits-trim_start (c ∷ s) (d, ds) = ground arith

digits-trim_end : (s : Str) → All IsDigit s → trim_end s ≡ s
unfolding trim_end is_space
digits-trim_end [] d = refl
digits-trim_end (c ∷ []) (d, ds) = ground arith
digits-trim_end (c ∷ e ∷ s) (d, ds) = rw (digits-trim_end (e ∷ s) ds) refl

decimal-IsFieldValue : (n : ℕ) → IsFieldValue (decimal n)
decimal-IsFieldValue n =
    let d = decimal-IsDigit n in
    record {
      value_ascii = digits-IsAscii (decimal n) d;
      one_line = digits-NoLineFeed (decimal n) d;
      trimmed_start = digits-trim_start (decimal n) d;
      trimmed_end = digits-trim_end (decimal n) d;
    }

module _ (platform : Platform) where
  IsFieldValue-IsField :
      (key value : Str)
      → key ≢ []
      → all_ascii key ≡ true
      → All IsNameChar key
      → canonicalize_key platform key ≡ key
      → IsFieldValue value
      → IsField platform (key, value)
  IsFieldValue-IsField key value named ascii chars canonical v = record {
    named = named;
    name_ascii = all_ascii-IsAscii key ascii;
    name_chars = chars;
    canonical = canonical;
    value_ascii = v.value_ascii;
    one_line = v.one_line;
    trimmed_start = v.trimmed_start;
    trimmed_end = v.trimmed_end;
  }

  pub content_type-IsField :
      (value : Str) → IsFieldValue value → IsField platform (Header.content_type, value)
  unfolding canonicalize_key is_space
  content_type-IsField value v =
      IsFieldValue-IsField Header.content_type value (λ e. cc) refl (ground arith)
        (canonicalize_key-ascii platform Header.content_type refl) v

  pub content_length-IsField : (n : ℕ) → IsField platform (Header.content_length, decimal n)
  unfolding canonicalize_key is_space
  content_length-IsField n =
      IsFieldValue-IsField Header.content_length (decimal n) (λ e. cc) refl (ground arith)
        (canonicalize_key-ascii platform Header.content_length refl) (decimal-IsFieldValue n)

  -- The message that js/src/createMessage.ts makes of headers, a content type and content.
  pub content-IsSendable :
      (headers : Headers) (name : Str) (body : Blob)
      → All (IsField platform) headers
      → IsPlain headers
      → IsFieldValue name
      → IsSendable platform (record {
        headers =
            set Header.content_length
              (decimal (length body))
              (set Header.content_type name headers);
        body = body;
      })
  unfolding array_index str_eq
  content-IsSendable headers name body fields plain v = record {
    some_header = set-ne Header.content_length (decimal (length body)) _;
    fields =
        set-All (IsField platform) Header.content_length (decimal (length body)) _
          (content_length-IsField (length body))
          (set-All (IsField platform) Header.content_type name headers (content_type-IsField name v)
            fields);
    plain =
        set-IsPlain Header.content_length _ _ refl
          (set-IsPlain Header.content_type name headers refl plain);
    length_fits = inr (
      decimal (length body),
      get-set Header.content_length Header.content_length _ _,
      parse_int-decimal (length body),
    );
  }
