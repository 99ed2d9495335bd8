-- ===== src/Wire/Chunk.antt =====
-- The scan of js/src/parseMessageFromBlob.ts for the end of the headers: byte by byte, as a
-- specification, and a chunk of it.
use native.Mathlib.Nat.{suc-add}
use Prim.Native.Nat.{min}
use interop.Base.{
  ℕ, zero, suc, ◌+◌, ◌-◌, ◌<◌, ◌≡◌, refl, sym, ap, ◌∙◌, inl, inr, Bool, true, false, ◌&&◌, [], ◌∷◌,
  ◌++◌, append_assoc, append-nil, length, length-append, take, drop, ◌==◌, if◌then◌else◌, none,
  some, pos, slice, arith, Bool-cases, take-length_append, drop-length_append,
}
use interop.Text.{index_of}
use interop.Message.{Blob}
use interop.Wire.{ends_with_double_line_break, scan_chunk, index_from}

-- Is the byte `x`, behind `before`, the end of the headers?
unfoldable pub is_end : Blob → ℕ → Bool
is_end before x = x == 10 && ends_with_double_line_break (before ++ x ∷ [])

-- `view` ends with the last line feed so far.
abbrev pub next_view : Blob → ℕ → Blob → Blob
next_view before x view = if x == 10 then before ++ x ∷ [] else view

-- The specification: one byte at a time, up to the line feed that ends a double line break; without
-- one, up to the last line feed.
unfoldable pub scan_bytes : Blob → Blob → Blob → Blob
scan_bytes before [] view = view
scan_bytes before (x ∷ rest) view = elim (is_end before x) [
  | true ↦ before ++ x ∷ []
  | false ↦ scan_bytes (before ++ x ∷ []) rest (next_view before x view)
]

-- The same for a part of the blob, with whether the end was found.
unfoldable pub scan_part : Blob → Blob → Blob → Blob × Bool
scan_part before [] view = (view, false)
scan_part before (x ∷ part) view = elim (is_end before x) [
  | true ↦ (before ++ x ∷ [], true)
  | false ↦ scan_part (before ++ x ∷ []) part (next_view before x view)
]

abbrev pub continue : Blob → Blob → Blob × Bool → Blob
continue before rest (view, true) = view
continue before rest (view, false) = scan_bytes before rest view

pub scan_bytes-append :
    (before part rest view : Blob)
    → scan_bytes before (part ++ rest) view
      ≡ continue (before ++ part) rest (scan_part before part view)
unfolding scan_bytes scan_part
scan_bytes-append before [] rest view = rw (append-nil before)
scan_bytes-append before (x ∷ part) rest view = elim (Bool-cases (is_end before x)) [
  | inl done ↦ rw (done, scan_bytes, scan_part) refl
  | inr more ↦
      rw (more, scan_bytes, scan_part)
        (scan_bytes-append (before ++ x ∷ []) part rest (next_view before x view)
          ∙ ap (λ b. continue b rest (scan_part (before ++ x ∷ []) part (next_view before x view)))
              (append_assoc before (x ∷ []) part))
]

pub slice_prefix :
    (here rest : Blob) (n : ℕ) → n ≡ length here → slice (here ++ rest) (pos 0) (pos n) ≡ here
unfolding slice
slice_prefix here rest n e =
    let short : min 0 (length (here ++ rest)) ≡ 0 = omega arith in
    let whole : min n (length (here ++ rest)) - 0 ≡ length here =
      omega (arith, length-append here rest) in
    rw (short, whole) (take-length_append here rest)

take-min-length : (n m : ℕ) (xs : Blob) → m ≡ min n (length xs) → take m xs ≡ take n xs
take-min-length zero m xs e = rw (show) refl
  where
    show : m ≡ 0
    show = omega arith
take-min-length (suc n) zero [] e = refl
take-min-length (suc n) (suc m) [] e = refl
take-min-length (suc n) zero (x ∷ xs) e = absurd (omega arith)
take-min-length (suc n) (suc m) (x ∷ xs) e = ap (◌∷◌ x) (take-min-length n m xs (omega arith))

pub slice_chunk :
    (before rest : Blob)
    → slice (before ++ rest) (pos (length before)) (pos (length before + 64)) ≡ take 64 rest
unfolding slice
slice_chunk before rest =
    let from : min (length before) (length (before ++ rest)) ≡ length before =
      omega (arith, length-append before rest) in
    rw (from, drop-length_append before rest)
      (take-min-length 64 _ rest (omega (arith, length-append before rest)))

index_from_skip :
    (bytes : Blob) (cursor x : ℕ) (part : Blob)
    → drop cursor bytes ≡ x ∷ part
    → drop (cursor + 1) bytes ≡ part
    → (x == 10) ≡ false
    → index_from bytes cursor ≡ index_from bytes (cursor + 1)
unfolding index_from index_of
index_from_skip bytes cursor x part e e' h = rw (e, e', index_from) (ground arith)

index_from_hit :
    (bytes : Blob) (cursor x : ℕ) (part : Blob)
    → drop cursor bytes ≡ x ∷ part
    → (x == 10) ≡ true
    → index_from bytes cursor ≡ some cursor
unfolding index_from index_of
index_from_hit bytes cursor x part e h = rw (e, index_from) (ground arith)

index_from_end :
    (bytes : Blob) (cursor : ℕ) → drop cursor bytes ≡ [] → index_from bytes cursor ≡ none
unfolding index_from index_of
index_from_end bytes cursor e = rw (e, index_from) refl

drop_suc : (n : ℕ) (xs : Blob) (x : ℕ) (part : Blob) → drop n xs ≡ x ∷ part → drop (n + 1) xs ≡ part
drop_suc zero [] x part e = cc
drop_suc zero (y ∷ xs) x part e = cc
drop_suc (suc n) [] x part e = cc
drop_suc (suc n) (y ∷ xs) x part e = rw (suc-add n 1) (drop_suc n xs x part e)

scan_chunk-cong :
    (fuel : ℕ) (blob bytes : Blob) (offset cursor cursor' : ℕ) (view : Blob)
    → index_from bytes cursor ≡ index_from bytes cursor'
    → scan_chunk (suc fuel) blob offset bytes cursor view
      ≡ scan_chunk (suc fuel) blob offset bytes cursor' view
unfolding scan_chunk
scan_chunk-cong fuel blob bytes offset cursor cursor' view e = rw (e, scan_chunk) refl

scan_part-hit :
    (before : Blob) (x : ℕ) (part view : Blob)
    → (x == 10) ≡ true
    → let here = before ++ x ∷ [] in
      scan_part before (x ∷ part) view
      ≡ (if ends_with_double_line_break here then (here, true) else scan_part here part here)
unfolding scan_part is_end
scan_part-hit before x part view h = ground arith

scan_part-miss :
    (before : Blob) (x : ℕ) (part view : Blob)
    → (x == 10) ≡ false
    → scan_part before (x ∷ part) view ≡ scan_part (before ++ x ∷ []) part view
unfolding scan_part is_end
scan_part-miss before x part view h = ground arith

-- The inner loop looks at the line feeds of its chunk as the scan by bytes does.
pub scan_chunk-part :
    (fuel : ℕ) (blob before part post bytes : Blob) (offset cursor : ℕ) (view : Blob)
    → length part < fuel
    → blob ≡ before ++ part ++ post
    → length before ≡ offset + cursor
    → drop cursor bytes ≡ part
    → scan_chunk fuel blob offset bytes cursor view ≡ scan_part before part view
scan_chunk-part zero blob before part post bytes offset cursor view f b l d = absurd (omega arith)
scan_chunk-part (suc fuel) blob before [] post bytes offset cursor view f b l d =
    unfold scan_chunk scan_part in rw (index_from_end bytes cursor d, scan_chunk) refl
scan_chunk-part (suc fuel) blob before (x ∷ part) post bytes offset cursor view f b l d =
    elim (Bool-cases (x == 10)) [
      | inl hit ↦ rw (scan_part-hit before x part view hit) (
          scan_chunk-hit (index_from_hit bytes cursor x part d hit) (
            scan_chunk-part fuel blob (before ++ x ∷ []) part post bytes offset (cursor + 1)
              (before ++ x ∷ []) (omega arith) b' l' after))
      | inr miss ↦ rw (scan_part-miss before x part view miss) (
          scan_chunk-cong fuel blob bytes offset cursor (cursor + 1) view
            (index_from_skip bytes cursor x part d after miss)
          ∙ scan_chunk-part (suc fuel) blob (before ++ x ∷ []) part post bytes offset (cursor + 1)
              view (omega arith) b' l' after)
    ]
  where
    b' : blob ≡ (before ++ x ∷ []) ++ part ++ post
    b' = b ∙ ap (λ t. t ++ post) (sym (append_assoc before (x ∷ []) part))

    l' : length (before ++ x ∷ []) ≡ offset + (cursor + 1)
    l' = omega (arith, length-append before (x ∷ []))

    after : drop (cursor + 1) bytes ≡ part
    after = drop_suc cursor bytes x part d

    here : slice blob (pos 0) (pos (offset + cursor + 1)) ≡ before ++ x ∷ []
    here =
        rw (b', append_assoc (before ++ x ∷ []) part post)
          (slice_prefix (before ++ x ∷ []) (part ++ post) (offset + cursor + 1) (omega (arith, l')))

    scan_chunk-hit :
        index_from bytes cursor ≡ some cursor
        → scan_chunk fuel blob offset bytes (cursor + 1) (before ++ x ∷ [])
          ≡ scan_part (before ++ x ∷ []) part (before ++ x ∷ [])
        → scan_chunk (suc fuel) blob offset bytes cursor view ≡ (
            if ends_with_double_line_break (before ++ x ∷ [])
            then (before ++ x ∷ [], true)
            else scan_part (before ++ x ∷ []) part (before ++ x ∷ []))
    scan_chunk-hit e more = unfold scan_chunk in rw (e, scan_chunk) (rw here (rw more refl))
