-- ===== src/Wire.antt =====
-- The wire format: js/src/createBlobFromMessage.ts and the header scan of
-- js/src/parseMessageFromBlob.ts.
pub mod Chunk
pub mod Scan
pub mod LineBreaks
pub mod Fields
use interop.Base.{
  ℕ, zero, suc, ◌+◌, ◌-◌, Bool, true, false, not, ◌&&◌, List, [], ◌∷◌, ◌++◌, codes, length,
  get_elem?, ltb, ◌==◌, if◌then◌else◌, Option, none, some, ℤ, pos, negsuc, slice, slice_from, drop,
}
use interop.Text.{Platform, index_of}
use interop.Headers.{Headers}
use interop.Message.{Message, Blob}

module _ (platform : Platform) where
  unfoldable pub header_lines : Headers → Blob
  header_lines [] = []
  header_lines ((k, v) ∷ h) =
      platform.encode (k ++ (codes ": " ++ (v ++ codes "\n"))) ++ header_lines h

  unfoldable pub create_blob_from_message : Message → Blob
  unfolding header_lines
  create_blob_from_message message =
      header_lines message.headers
      ++ (platform.encode (codes "\n") ++ (message.body ++ platform.encode (codes "\n")))

-- `filter(x => x !== CarriageReturn)`
unfoldable pub drop_returns : Blob → Blob
drop_returns [] = []
drop_returns (x ∷ xs) = if x == 13 then drop_returns xs else x ∷ drop_returns xs

is_line_feed : Option ℕ → Bool
is_line_feed none = false
is_line_feed (some x) = x == 10

unfoldable pub ends_with_double_line_break : Blob → Bool
unfolding drop_returns is_line_feed slice_from
ends_with_double_line_break blob =
    let end = slice_from (drop_returns (slice_from blob (negsuc 3))) (negsuc 1) in
    is_line_feed (get_elem? end 0) && is_line_feed (get_elem? end 1)

-- `bytes.indexOf(LineFeed, cursor)`
index_from : Blob → ℕ → Option ℕ
unfolding index_of
index_from bytes cursor = elim (index_of 10 (drop cursor bytes)) [
  | none ↦ none
  | some i ↦ some (cursor + i)
]

-- The inner loop of `extractHeadersFromBlob`: from `cursor` on in the chunk at `offset`. Its fuel is
-- more than the bytes that are left in the chunk.
pub scan_chunk : ℕ → Blob → ℕ → Blob → ℕ → Blob → Blob × Bool
unfolding index_from
scan_chunk zero blob offset bytes cursor header_view = (header_view, false)
scan_chunk (suc fuel) blob offset bytes cursor header_view = elim (index_from bytes cursor) [
  | none ↦ (header_view, false)
  | some at ↦
      (let view = slice blob (pos 0) (pos (offset + at + 1)) in
        let more = scan_chunk fuel blob offset bytes (at + 1) view in
        if ends_with_double_line_break view then (view, true) else more)
]

abbrev chunk_size : ℕ
chunk_size = 64

-- The outer loop: a round for each chunk, while bytes are left and no header end is found.
scan_chunks : ℕ → Blob → ℕ → Blob → Blob
unfolding scan_chunk slice
scan_chunks zero blob offset header_view = header_view
scan_chunks (suc fuel) blob offset header_view =
    let bytes = slice blob (pos offset) (pos (offset + chunk_size)) in
    let found = scan_chunk (suc (length bytes)) blob offset bytes 0 header_view in
    let more = scan_chunks fuel blob (offset + chunk_size) found.0 in
    if ltb offset (length blob) then (if found.1 then found.0 else more) else header_view

unfoldable pub extract_headers_from_blob : Blob → Blob
unfolding scan_chunks slice
extract_headers_from_blob blob = scan_chunks (suc (length blob)) blob 0 (slice blob (pos 0) (pos 0))
