-- ===== src/Wire/LineBreaks.antt =====
-- Where js/src/parseMessageFromBlob.ts sees a double line break, and how the scan goes over a line.
use interop.Base.{
  ℕ, zero, suc, ◌-◌, ◌≤◌, ◌≡◌, refl, ap, ◌∙◌, true, false, [], ◌∷◌, ◌++◌, append_assoc, length,
  length-append, drop, ◌==◌, negsuc, slice_from, arith, drop-length_append,
}
use interop.Text.Lines.{NoLineFeed}
use interop.Message.{Blob}
use interop.Wire.{ends_with_double_line_break, drop_returns}
use interop.Wire.Chunk.{scan_bytes, is_end, next_view}

drop-append_le : (n : ℕ) (xs ys : Blob) → n ≤ length xs → drop n (xs ++ ys) ≡ drop n xs ++ ys
drop-append_le zero xs ys h = refl
drop-append_le (suc n) [] ys h = absurd (omega arith)
drop-append_le (suc n) (x ∷ xs) ys h = drop-append_le n xs ys (omega arith)

drop_returns-append : (xs ys : Blob) → drop_returns (xs ++ ys) ≡ drop_returns xs ++ drop_returns ys
unfolding drop_returns
drop_returns-append [] ys = refl
drop_returns-append (x ∷ xs) ys = ground (arith, drop_returns-append xs ys)

slice_from-last : (xs : Blob) (a b : ℕ) → slice_from (xs ++ a ∷ b ∷ []) (negsuc 1) ≡ a ∷ b ∷ []
unfolding slice_from
slice_from-last xs a b =
    let at : length (xs ++ a ∷ b ∷ []) - 2 ≡ length xs =
      omega (arith, length-append xs (a ∷ b ∷ [])) in
    rw at (drop-length_append xs (a ∷ b ∷ []))

slice_from-window :
    (xs : Blob) (a b : ℕ)
    → slice_from (xs ++ a ∷ b ∷ []) (negsuc 3) ≡ drop (length xs - 2) xs ++ a ∷ b ∷ []
unfolding slice_from
slice_from-window xs a b =
    let at : length (xs ++ a ∷ b ∷ []) - 4 ≡ length xs - 2 =
      omega (arith, length-append xs (a ∷ b ∷ [])) in
    rw at (drop-append_le (length xs - 2) xs (a ∷ b ∷ []) (omega arith))

-- Behind a byte that is no carriage return, a line feed ends a double line break exactly when that
-- byte is a line feed.
pub ends_with_double_line_break-snoc :
    (xs : Blob) (a : ℕ)
    → (a == 13) ≡ false
    → ends_with_double_line_break (xs ++ a ∷ 10 ∷ []) ≡ (a == 10)
unfolding ends_with_double_line_break
ends_with_double_line_break-snoc xs a h =
    let kept : drop_returns (a ∷ 10 ∷ []) ≡ a ∷ 10 ∷ [] = unfold drop_returns in ground arith in
    rw
      (
        slice_from-window xs a 10,
        drop_returns-append (drop (length xs - 2) xs) (a ∷ 10 ∷ []),
        kept,
        slice_from-last (drop_returns (drop (length xs - 2) xs)) a 10,
      )
      (ground arith)

-- The scan goes over a line whose line feed ends no double line break.
pub scan_bytes-line :
    (before line rest view : Blob)
    → NoLineFeed line
    → ends_with_double_line_break (before ++ (line ++ 10 ∷ [])) ≡ false
    → scan_bytes before (line ++ 10 ∷ rest) view
      ≡ scan_bytes (before ++ (line ++ 10 ∷ [])) rest (before ++ (line ++ 10 ∷ []))
unfolding scan_bytes is_end
scan_bytes-line before [] rest view h e = rw (e, scan_bytes) refl
scan_bytes-line before (c ∷ line) rest view h e =
    rw (h.0, scan_bytes)
      (scan_bytes-line (before ++ c ∷ []) line rest (next_view before c view) h.1 (rw shift e)
        ∙ ap (λ b. scan_bytes b rest b) shift)
  where
    shift : (before ++ c ∷ []) ++ (line ++ 10 ∷ []) ≡ before ++ c ∷ (line ++ 10 ∷ [])
    shift = append_assoc before (c ∷ []) (line ++ 10 ∷ [])

-- It stops at the line feed that ends one.
pub scan_bytes-stop :
    (before rest view : Blob)
    → ends_with_double_line_break (before ++ 10 ∷ []) ≡ true
    → scan_bytes before (10 ∷ rest) view ≡ before ++ 10 ∷ []
unfolding scan_bytes is_end
scan_bytes-stop before rest view e = rw (e, scan_bytes) refl
