-- ===== src/Parse/Lines.antt =====
-- The header lines of js/src/parseMessageFromBlob.ts: the fields of a header block are read back.
use native.Mathlib.Nat.{suc-add}
use interop.Base.{
  ℕ, ◌+◌, ◌≡◌, ◌≢◌, refl, ap, ◌∙◌, [], ◌∷◌, ◌++◌, append_assoc, Str, All, some, length, drop, arith,
  take-length_append,
}
use interop.Text.{
  Platform, is_space, trim, trim_start, trim_end, cons_trimmed, index_of, split_lines,
}
use interop.Text.Lines.{
  NoLineFeed, trim_end-append, trim_end-append_spaces, split_lines_one, split_lines-append,
}
use interop.Headers.{Headers}
use interop.Parse.{parse_line, parse_lines, ok}
use interop.Wire.Fields.{
  IsField, IsNameChar, line, header_text, line-NoLineFeed, name-NoLineFeed, All-append, EndsPlain,
  final, line-EndsPlain,
}

index_of_name : (k t : Str) → All IsNameChar k → index_of b':' (k ++ b':' ∷ t) ≡ some (length k)
unfolding index_of
index_of_name [] t h = refl
index_of_name (c ∷ k) t h = rw (index_of_name k t h.1) (ground arith)

drop_past_length : (k t : Str) (c : ℕ) → drop (length k + 1) (k ++ c ∷ t) ≡ t
drop_past_length [] t c = refl
drop_past_length (x ∷ k) t c = rw (suc-add (length k) 1) (drop_past_length k t c)

trim_end-ne : (k s : Str) → k ≢ [] → All IsNameChar k → trim_end (k ++ s) ≢ []
unfolding trim_end
trim_end-ne [] s n h = absurd (n refl)
trim_end-ne (c ∷ k) s n h = cons_ne (trim_end (k ++ s))
  where
    cons_ne : (t : Str) → cons_trimmed c t ≢ []
    cons_ne [] e = ground (arith, h.0)
    cons_ne (d ∷ t) e = cc

trim_start_name : (k s : Str) → k ≢ [] → All IsNameChar k → trim_start (k ++ s) ≡ k ++ s
unfolding trim_start
trim_start_name [] s n h = absurd (n refl)
trim_start_name (c ∷ k) s n h = rw h.0.0 refl

module _ (platform : Platform) where
  parse_line-field :
      (k v t : Str)
      → IsField platform (k, v)
      → trim_start t ≡ v
      → parse_line platform (k ++ b':' ∷ t) ≡ ok (k, v)
  unfolding parse_line
  parse_line-field k v t f e =
      rw (index_of_name k t f.name_chars, parse_line)
        (rw (take-length_append k (b':' ∷ t), drop_past_length k t b':', f.canonical, e) refl)

  parse_line-line : (e : Str × Str) → IsField platform e → parse_line platform (line e) ≡ ok e
  unfolding trim_start
  parse_line-line (k, v) f = parse_line-field k v (32 ∷ v) f f.trimmed_start

  -- The last line loses the white space at its end, which is what stands before an empty value.
  data LastLine (e : Str × Str) : Type 0 where
    trimmed :
        (t : Str)
        → trim_end (line e) ≡ e.0 ++ b':' ∷ t
        → trim_start t ≡ e.1
        → NoLineFeed (e.0 ++ b':' ∷ t)
        → LastLine e

  last_line : (e : Str × Str) → IsField platform e → LastLine e
  unfolding trim_end trim_start
  last_line (k, []) f =
      trimmed [] (trim_end-append k (b':' ∷ 32 ∷ []) (λ e. cc)) refl
        (All-append _ k (b':' ∷ []) (name-NoLineFeed k f.name_chars) (refl, tt))
  last_line (k, c ∷ v) f =
      let kept : trim_end (b':' ∷ 32 ∷ c ∷ v) ≡ b':' ∷ 32 ∷ c ∷ v =
        ap (λ t. cons_trimmed b':' (cons_trimmed 32 t)) f.trimmed_end in
      trimmed (32 ∷ c ∷ v)
        (trim_end-append k (b':' ∷ 32 ∷ c ∷ v) (λ e. cc (kept, e)) ∙ ap (◌++◌ k) kept)
        f.trimmed_start (line-NoLineFeed platform (k, c ∷ v) f)

  parse_lines_last :
      (e : Str × Str)
      → IsField platform e
      → parse_lines platform (split_lines (trim_end (header_text (e ∷ []) ++ 10 ∷ [])))
        ≡ ok (e ∷ [])
  unfolding parse_lines
  parse_lines_last e f = go (last_line e f)
    where
      bare : trim_end (header_text (e ∷ []) ++ 10 ∷ []) ≡ trim_end (line e)
      bare =
          rw (append_assoc (line e) (10 ∷ []) (10 ∷ []))
            (trim_end-append_spaces (line e) (10 ∷ 10 ∷ []) (unfold is_space in (refl, (refl, tt))))

      go :
          LastLine e
          → parse_lines platform (split_lines (trim_end (header_text (e ∷ []) ++ 10 ∷ [])))
            ≡ ok (e ∷ [])
      go (trimmed t p q r) =
          rw (bare, p, split_lines_one (e.0 ++ b':' ∷ t) r)
            (rw (parse_line-field e.0 e.1 t f q, parse_lines) refl)

  header_text-ne :
      (e : Str × Str) (h : Headers)
      → IsField platform e
      → trim_end (header_text (e ∷ h) ++ 10 ∷ []) ≢ []
  header_text-ne (k, v) h f =
      rw
        (
          append_assoc (line (k, v)) (10 ∷ header_text h) (10 ∷ []),
          append_assoc k (b':' ∷ 32 ∷ v) ((10 ∷ header_text h) ++ 10 ∷ []),
        )
        (trim_end-ne k _ f.named f.name_chars)

  split_line :
      (s t : Str) → NoLineFeed s → EndsPlain s → split_lines (s ++ 10 ∷ t) ≡ s ∷ split_lines t
  split_line s t n (final init c feed return p) =
      rw p (split_lines-append init t c (rw p at n) return)

  parse_lines-header_text :
      (e : Str × Str) (h : Headers)
      → All (IsField platform) (e ∷ h)
      → parse_lines platform (split_lines (trim_end (header_text (e ∷ h) ++ 10 ∷ []))) ≡ ok (e ∷ h)
  unfolding parse_lines
  parse_lines-header_text e [] f = parse_lines_last e f.0
  parse_lines-header_text e (d ∷ h) f =
      let rest : Str = header_text (d ∷ h) ++ 10 ∷ [] in
      let text : trim_end (header_text (e ∷ d ∷ h) ++ 10 ∷ []) ≡ line e ++ 10 ∷ trim_end rest =
        ap trim_end (regroup (line e) (header_text (d ∷ h)))
        ∙ trim_end-append (line e ++ 10 ∷ []) rest (header_text-ne d h f.1.0)
        ∙ append_assoc (line e) (10 ∷ []) (trim_end rest) in
      let split : split_lines (line e ++ 10 ∷ trim_end rest)
          ≡ line e ∷ split_lines (trim_end rest) =
        split_line (line e) (trim_end rest) (line-NoLineFeed platform e f.0)
          (line-EndsPlain platform e f.0) in
      rw (text, split)
        (rw (parse_line-line e f.0, parse_lines) (rw (parse_lines-header_text d h f.1) refl))
    where
      regroup : (xs ys : Str) → (xs ++ 10 ∷ ys) ++ 10 ∷ [] ≡ (xs ++ 10 ∷ []) ++ (ys ++ 10 ∷ [])
      regroup xs ys = simp append_assoc

  -- The fields of a header block are read back from it.
  pub parse_lines-trim :
      (h : Headers)
      → h ≢ []
      → All (IsField platform) h
      → parse_lines platform (split_lines (trim (header_text h ++ 10 ∷ []))) ≡ ok h
  unfolding trim
  parse_lines-trim [] n f = absurd (n refl)
  parse_lines-trim ((k, v) ∷ h) n f =
      let start : trim_start (header_text ((k, v) ∷ h) ++ 10 ∷ [])
          ≡ header_text ((k, v) ∷ h) ++ 10 ∷ [] =
        rw (regroup (b':' ∷ 32 ∷ v) (header_text h))
          (trim_start_name k _ f.0.named f.0.name_chars) in
      rw start (parse_lines-header_text (k, v) h f)
    where
      regroup :
          (ys zs : Str) → ((k ++ ys) ++ 10 ∷ zs) ++ 10 ∷ [] ≡ k ++ (ys ++ (10 ∷ (zs ++ 10 ∷ [])))
      regroup ys zs = simp append_assoc
