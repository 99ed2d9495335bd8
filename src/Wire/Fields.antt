-- ===== src/Wire/Fields.antt =====
-- Header fields that can be written and read back, and the text that they are written as.
use interop.Base.{
  ℕ, ◌≡◌, ◌≢◌, refl, sym, ◌∙◌, false, List, [], ◌∷◌, ◌++◌, append_assoc, Str, All, ◌==◌, arith,
  codes,
}
use interop.Text.{Platform, IsAscii, is_space, trim_start, trim_end, canonicalize_key}
use interop.Text.Lines.{NoLineFeed, EndsInk, last, trim_end-EndsInk, append-EndsInk}
use interop.Headers.{Headers}
use interop.Message.{Blob}
use interop.Wire.{header_lines, ends_with_double_line_break, extract_headers_from_blob}
use interop.Wire.Chunk.{scan_bytes}
use interop.Wire.Scan.{extract-scan_bytes}
use interop.Wire.LineBreaks.{ends_with_double_line_break-snoc, scan_bytes-line, scan_bytes-stop}

abbrev pub IsNameChar : ℕ → Type 0
IsNameChar c = (is_space c ≡ false) × ((c == b':') ≡ false)

-- A field with a canonical ASCII name, and an ASCII value in one line with no white space around it.
pub record IsField (platform : Platform) (field : Str × Str) : Type 0 where
  pub named : field.0 ≢ []
  pub name_ascii : IsAscii field.0
  pub name_chars : All IsNameChar field.0
  pub canonical : canonicalize_key platform field.0 ≡ field.0
  pub value_ascii : IsAscii field.1
  pub one_line : NoLineFeed field.1
  pub trimmed_start : trim_start field.1 ≡ field.1
  pub trimmed_end : trim_end field.1 ≡ field.1

abbrev pub line : Str × Str → Str
line (k, v) = k ++ b':' ∷ 32 ∷ v

-- The lines of the header block, without the empty one that ends it.
abbrev pub header_text : Headers → Str
header_text [] = []
header_text (e ∷ h) = line e ++ 10 ∷ header_text h

pub All-append {ℓ} :
    {A : Type 0} (P : A → Type ℓ) (xs ys : List A) → All P xs → All P ys → All P (xs ++ ys)
All-append P [] ys p q = q
All-append P (x ∷ xs) ys p q = (p.0, All-append P xs ys p.1 q)

-- The last character of a line is no line break.
pub data EndsPlain (s : Str) : Type 0 where
  final :
      (init : Str) (c : ℕ)
      → (c == 10) ≡ false
      → (c == 13) ≡ false
      → s ≡ init ++ c ∷ []
      → EndsPlain s

EndsInk-EndsPlain : {s : Str} → EndsInk s → EndsPlain s
unfolding is_space
EndsInk-EndsPlain (last init c h e) = final init c (ground arith) (ground arith) e

pub name-NoLineFeed : (k : Str) → All IsNameChar k → NoLineFeed k
unfolding is_space
name-NoLineFeed [] h = tt
name-NoLineFeed (c ∷ k) h = (ground arith, name-NoLineFeed k h.1)

module _ (platform : Platform) where
  pub line-IsAscii : (e : Str × Str) → IsField platform e → IsAscii (line e)
  line-IsAscii (k, v) f =
      All-append _ k (b':' ∷ 32 ∷ v) f.name_ascii (omega arith, (omega arith, f.value_ascii))

  pub header_text-IsAscii : (h : Headers) → All (IsField platform) h → IsAscii (header_text h)
  header_text-IsAscii [] f = tt
  header_text-IsAscii (e ∷ h) f =
      All-append _ (line e) (10 ∷ header_text h) (line-IsAscii e f.0)
        (omega arith, header_text-IsAscii h f.1)

  encode-line :
      (e : Str × Str)
      → IsField platform e
      → platform.encode (e.0 ++ (codes ": " ++ (e.1 ++ codes "\n"))) ≡ line e ++ 10 ∷ []
  encode-line (k, v) f =
      let whole : k ++ (codes ": " ++ (v ++ codes "\n")) ≡ line (k, v) ++ 10 ∷ [] =
        sym (append_assoc k (b':' ∷ 32 ∷ v) (10 ∷ [])) in
      rw whole (
        platform.encode_ascii _
          (All-append _ (line (k, v)) (10 ∷ []) (line-IsAscii (k, v) f) (omega arith, tt)))

  pub header_lines-text :
      (h : Headers) → All (IsField platform) h → header_lines platform h ≡ header_text h
  unfolding header_lines
  header_lines-text [] f = refl
  header_lines-text ((k, v) ∷ h) f =
      rw (encode-line (k, v) f.0, header_lines-text h f.1)
        (append_assoc (line (k, v)) (10 ∷ []) (header_text h))

  pub line-NoLineFeed : (e : Str × Str) → IsField platform e → NoLineFeed (line e)
  line-NoLineFeed (k, v) f =
      All-append _ k (b':' ∷ 32 ∷ v) (name-NoLineFeed k f.name_chars) (refl, (refl, f.one_line))

  pub line-EndsPlain : (e : Str × Str) → IsField platform e → EndsPlain (line e)
  line-EndsPlain (k, []) f =
      final (k ++ b':' ∷ []) 32 refl refl (sym (append_assoc k (b':' ∷ []) (32 ∷ [])))
  line-EndsPlain (k, c ∷ v) f = EndsInk-EndsPlain (
      append-EndsInk k _ (
        append-EndsInk (b':' ∷ 32 ∷ []) (c ∷ v) (trim_end-EndsInk (c ∷ v) (λ n. cc) f.trimmed_end)))

  line_breaks_no_double :
      (before : Blob) (e : Str × Str)
      → IsField platform e
      → ends_with_double_line_break (before ++ (line e ++ 10 ∷ [])) ≡ false
  line_breaks_no_double before e f = go (line-EndsPlain e f)
    where
      go : EndsPlain (line e) → ends_with_double_line_break (before ++ (line e ++ 10 ∷ [])) ≡ false
      go (final init c feed return p) =
          rw (p, append_assoc init (c ∷ []) (10 ∷ []), ← append_assoc before init (c ∷ 10 ∷ []))
            (ends_with_double_line_break-snoc (before ++ init) c return ∙ feed)

  scan_bytes-field :
      (before view rest : Blob) (e : Str × Str) (h : Headers)
      → IsField platform e
      → scan_bytes before (header_text (e ∷ h) ++ 10 ∷ rest) view
        ≡ scan_bytes
            ((before ++ line e) ++ 10 ∷ [])
            (header_text h ++ 10 ∷ rest)
            ((before ++ line e) ++ 10 ∷ [])
  scan_bytes-field before view rest e h f =
      rw
        (
          append_assoc (line e) (10 ∷ header_text h) (10 ∷ rest),
          append_assoc before (line e) (10 ∷ []),
        )
        (scan_bytes-line before (line e) (header_text h ++ 10 ∷ rest) view (line-NoLineFeed e f)
          (line_breaks_no_double before e f))

  -- Behind a line, the scan goes on to the empty line that ends the header block.
  scan_bytes-text :
      (before view rest : Blob) (h : Headers)
      → All (IsField platform) h
      → scan_bytes (before ++ 10 ∷ []) (header_text h ++ 10 ∷ rest) view
        ≡ (before ++ 10 ∷ []) ++ (header_text h ++ 10 ∷ [])
  scan_bytes-text before view rest [] f = scan_bytes-stop (before ++ 10 ∷ []) rest view (
      rw (append_assoc before (10 ∷ []) (10 ∷ []))
        (ends_with_double_line_break-snoc before 10 refl))
  scan_bytes-text before view rest (e ∷ h) f =
      scan_bytes-field (before ++ 10 ∷ []) view rest e h f.0
      ∙ scan_bytes-text ((before ++ 10 ∷ []) ++ line e) _ rest h f.1
      ∙ regroup (before ++ 10 ∷ []) (line e) (header_text h)
    where
      regroup :
          (xs ys zs : Str)
          → ((xs ++ ys) ++ 10 ∷ []) ++ (zs ++ 10 ∷ []) ≡ xs ++ ((ys ++ 10 ∷ zs) ++ 10 ∷ [])
      regroup xs ys zs = simp append_assoc

  -- The header block is found, whatever follows it.
  pub extract-header_text :
      (h : Headers) (rest : Blob)
      → h ≢ []
      → All (IsField platform) h
      → extract_headers_from_blob (header_text h ++ 10 ∷ rest) ≡ header_text h ++ 10 ∷ []
  extract-header_text [] rest n f = absurd (n refl)
  extract-header_text (e ∷ h) rest n f =
      extract-scan_bytes (header_text (e ∷ h) ++ 10 ∷ rest)
      ∙ scan_bytes-field [] [] rest e h f.0
      ∙ scan_bytes-text (line e) _ rest h f.1
      ∙ regroup (line e) (header_text h)
    where
      regroup : (ys zs : Str) → (ys ++ 10 ∷ []) ++ (zs ++ 10 ∷ []) ≡ (ys ++ 10 ∷ zs) ++ 10 ∷ []
      regroup ys zs = simp append_assoc
