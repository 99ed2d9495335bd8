-- ===== src/Wire/Scan.antt =====
-- The chunked scan of js/src/parseMessageFromBlob.ts for the end of the headers, against a scan byte
-- by byte.
use native.Mathlib.Decide.{dec_le}
use interop.Base.{
  ℕ, zero, suc, ◌+◌, ◌≤◌, ◌<◌, ◌≡◌, refl, sym, ap, ◌∙◌, Bool, true, false, [], ◌∷◌, ◌++◌,
  append_assoc, length, length-append, take, drop, ltb, if◌then◌else◌, arith, take-append-drop,
  length-take, length-drop,
}
use interop.Message.{Blob}
use interop.Wire.{extract_headers_from_blob, scan_chunks}
use interop.Wire.Chunk.{
  scan_bytes, scan_part, continue, scan_bytes-append, slice_prefix, slice_chunk, scan_chunk-part,
}

-- A round of the outer loop with bytes left.
scan_chunks-part :
    (fuel : ℕ) (before rest view : Blob)
    → 0 < length rest
    → scan_chunks (suc fuel) (before ++ rest) (length before) view ≡ (
        let found = scan_part before (take 64 rest) view in
        if found.1 then found.0 else scan_chunks fuel (before ++ rest) (length before + 64) found.0)
unfolding scan_chunks
scan_chunks-part fuel before rest view h =
    let short : ltb (length before) (length (before ++ rest)) ≡ true =
      ground (arith, length-append before rest) in
    rw (short, scan_chunks)
      (rw (slice_chunk before rest) (
        rw (
          scan_chunk-part (suc (length (take 64 rest))) (before ++ rest) before (take 64 rest)
            (drop 64 rest) (take 64 rest) (length before) 0 view (omega arith)
            (rw (append_assoc before (take 64 rest) (drop 64 rest), take-append-drop 64 rest))
            (omega arith) refl)))

-- No bytes are left.
scan_chunks-end :
    (fuel : ℕ) (blob view : Blob) (offset : ℕ)
    → length blob ≤ offset
    → scan_chunks fuel blob offset view ≡ view
unfolding scan_chunks
scan_chunks-end zero blob view offset h = refl
scan_chunks-end (suc fuel) blob view offset h = ground arith

drop-empty : (n : ℕ) (xs : Blob) → length xs ≤ n → drop n xs ≡ []
drop-empty zero [] h = refl
drop-empty zero (x ∷ xs) h = absurd (omega arith)
drop-empty (suc n) [] h = refl
drop-empty (suc n) (x ∷ xs) h = drop-empty n xs (omega arith)

-- What follows a chunk in which no end was found.
scan_chunks-next :
    (fuel : ℕ) (before rest view : Blob)
    → ((before' post : Blob)
        → length post < fuel
        → scan_chunks fuel (before' ++ post) (length before') view ≡ scan_bytes before' post view)
    → length rest ≤ fuel
    → 0 < length rest
    → scan_chunks fuel (before ++ rest) (length before + 64) view
      ≡ scan_bytes (before ++ take 64 rest) (drop 64 rest) view
unfolding scan_bytes
scan_chunks-next fuel before rest view ih h pos_rest = elim (dec_le (length rest) 64) [
  | yes short ↦ rw (drop-empty 64 rest short) (
      scan_chunks-end fuel (before ++ rest) view (length before + 64)
        (omega (arith, length-append before rest)))
  | no long ↦
      let all_of : (before ++ take 64 rest) ++ drop 64 rest ≡ before ++ rest =
        rw (append_assoc before (take 64 rest) (drop 64 rest), take-append-drop 64 rest) refl in
      let here : length (before ++ take 64 rest) ≡ length before + 64 =
        omega (arith, length-append before (take 64 rest), length-take 64 rest) in
      rw (← all_of, ← here)
        (ih (before ++ take 64 rest) (drop 64 rest) (omega (arith, length-drop 64 rest)))
]

scan_chunks-bytes :
    (fuel : ℕ) (before rest view : Blob)
    → length rest < fuel
    → scan_chunks fuel (before ++ rest) (length before) view ≡ scan_bytes before rest view
unfolding scan_bytes
scan_chunks-bytes zero before rest view h = absurd (omega arith)
scan_chunks-bytes (suc fuel) before [] view h =
    scan_chunks-end (suc fuel) (before ++ []) view (length before)
      (omega (arith, length-append before []))
scan_chunks-bytes (suc fuel) before (x ∷ rest) view h =
    scan_chunks-part fuel before (x ∷ rest) view (omega arith)
    ∙ finish (λ v b p. scan_chunks-bytes fuel b p v) (scan_part before (take 64 (x ∷ rest)) view)
    ∙ sym (scan_bytes-append before (take 64 (x ∷ rest)) (drop 64 (x ∷ rest)) view)
    ∙ ap (λ r. scan_bytes before r view) (take-append-drop 64 (x ∷ rest))
  where
    finish :
        ((v b p : Blob)
          → length p < fuel
          → scan_chunks fuel (b ++ p) (length b) v ≡ scan_bytes b p v)
        → (r : Blob × Bool)
        → (if r.1 then r.0 else scan_chunks fuel (before ++ x ∷ rest) (length before + 64) r.0)
          ≡ continue (before ++ take 64 (x ∷ rest)) (drop 64 (x ∷ rest)) r
    finish ih (v, true) = refl
    finish ih (v, false) =
        scan_chunks-next fuel before (x ∷ rest) v (ih v) (omega arith) (omega arith)

-- The scan for the header block in chunks of 64 bytes finds what a scan byte by byte finds,
-- wherever the borders of the chunks fall.
pub extract-scan_bytes : (blob : Blob) → extract_headers_from_blob blob ≡ scan_bytes [] blob []
unfolding extract_headers_from_blob
extract-scan_bytes blob =
    rw (slice_prefix [] blob 0 refl)
      (scan_chunks-bytes (suc (length blob)) [] blob [] (omega arith))
