-- ===== src/Parse.antt =====
-- js/src/parseMessageFromBlob.ts: a blob into a message, with the errors that it throws.
pub mod Lines
pub mod RoundTrip
pub mod Errors
pub mod Names
mod Tests
use interop.Base.{
  ℕ, ◌+◌, ◌-◌, Bool, true, false, List, [], ◌∷◌, Str, codes, take, drop, length, get_elem?, ◌==◌,
  if◌then◌else◌, Option, none, some, ℤ, pos, negsuc, ◌+ℤ◌, slice, slice_from,
}
use interop.Text.{Platform, trim, trim_start, index_of, split_lines, canonicalize_key}
use interop.Header
use interop.Headers.{Headers, get, has, from_entries}
use interop.Message.{Message, Blob}
use interop.Number.{parse_int}
use interop.Wire.{extract_headers_from_blob}

pub data ParseError : Type 0 where
  expected_colon : Str → ParseError
  expected_newline : Option ℤ → Str → ParseError

-- What code returns that may throw.
pub data Result {κ} (X : Type κ) : Type κ where
  err : ParseError → Result X
  ok : X → Result X

infixl 5 ◌>>=◌
-- The first exception ends the function.
abbrev pub ◌>>=◌ {κ ι} : {X : Type κ} {Y : Type ι} → Result X → (X → Result Y) → Result Y
err thrown >>= next = err thrown
ok value >>= next = next value

-- A position that is NaN counts as 0, and so does NaN + 2.
abbrev to_integer : Option ℤ → ℤ
to_integer none = pos 0
to_integer (some n) = n

abbrev add_two : Option ℤ → ℤ
add_two none = pos 0
add_two (some n) = n +ℤ pos 2

-- `s.charCodeAt(0) === c`, where `charCodeAt` of an empty text is NaN.
abbrev starts_with_code : ℕ → Str → Bool
starts_with_code c [] = false
starts_with_code c (d ∷ s) = d == c

module _ (platform : Platform) where
  abbrev pub entry_at : ℕ → Str → Str × Str
  entry_at split_at line =
      (canonicalize_key platform (take split_at line), trim_start (drop (split_at + 1) line))

  -- The callback of `mapToObj`.
  unfoldable pub parse_line : Str → Result (Str × Str)
  parse_line line = elim (index_of b':' line) [
    | none ↦ err (expected_colon line)
    | some split_at ↦ ok (entry_at split_at line)
  ]

  -- `map`, which the first exception stops.
  unfoldable pub parse_lines : List Str → Result (List (Str × Str))
  parse_lines [] = ok []
  parse_lines (line ∷ lines) = do
    entry ← parse_line line
    entries ← parse_lines lines
    ok (entry ∷ entries)

  -- The body of the given length, if a line break follows it.
  unfoldable pub cut_body : Option ℤ → Blob → Result Blob
  cut_body length body =
      let text = platform.decode (slice body (to_integer length) (add_two length)) in
      let new_line = if starts_with_code 13 text then drop 1 text else text in
      if starts_with_code 10 new_line
      then ok (slice body (pos 0) (to_integer length))
      else err (expected_newline length new_line)

  unfoldable pub read_body : Headers → Blob → Result Blob
  read_body headers body = elim (get Header.content_length headers) [
    | none ↦ ok body
    | some value ↦ cut_body (parse_int value) body
  ]

  unfoldable pub parse_message_from_blob : Blob → Result Message
  parse_message_from_blob blob = do
    let header_blob = extract_headers_from_blob blob
    let header_string = platform.decode header_blob
    entries ← parse_lines (split_lines (trim header_string))
    let headers = from_entries entries
    body ← read_body headers (slice_from blob (pos (length header_blob)))
    ok (record { headers = headers; body = body })
