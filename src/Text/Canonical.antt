-- ===== src/Text/Canonical.antt =====
-- canonicalizeKey of js/src/utilities.ts on ASCII names.
use interop.Base.{
  ℕ, ◌<◌, ◌≡◌, refl, Bool, true, ◌&&◌, List, [], ◌∷◌, map, codes, Str, All, ltb, arith, take, drop,
  Bool-cases, inl, inr,
}
use interop.Text.{
  Platform, IsAscii, canonicalize_key, capitalize, ascii_upper, ascii_lower, split_words,
  push_first, is_separator, starts_with,
}

abbrev pub ascii_only : Platform
ascii_only = record {
  decode = λ s. s;
  encode = λ s. s;
  upper = map ascii_upper;
  lower = map ascii_lower;
  decode_ascii = λ s h. refl;
  encode_ascii = λ s h. refl;
  decode-encode = λ s h. refl;
  upper_ascii = λ s h. refl;
  lower_ascii = λ s h. refl;
}

canonicalize_key-spaced :
    canonicalize_key ascii_only (codes "content_ length") ≡ codes "Content-Length"
unfolding canonicalize_key
canonicalize_key-spaced = refl

canonicalize_key-dashes :
    canonicalize_key ascii_only (codes "-CONTENT--length_") ≡ codes "-Content-Length-"
unfolding canonicalize_key
canonicalize_key-dashes = refl

abbrev pub all_ascii : Str → Bool
all_ascii [] = true
all_ascii (c ∷ s) = ltb c 128 && all_ascii s

pub all_ascii-IsAscii : (s : Str) → all_ascii s ≡ true → IsAscii s
all_ascii-IsAscii [] h = tt
all_ascii-IsAscii (c ∷ s) h = (ground arith, all_ascii-IsAscii s (ground arith))

take_one-IsAscii : (s : Str) → IsAscii s → IsAscii (take 1 s)
take_one-IsAscii [] h = tt
take_one-IsAscii (c ∷ s) (a, h) = (a, tt)

drop_one-IsAscii : (s : Str) → IsAscii s → IsAscii (drop 1 s)
drop_one-IsAscii [] h = tt
drop_one-IsAscii (c ∷ s) (a, h) = h

push_first-IsAscii :
    (c : ℕ) (words : List Str) → c < 128 → All IsAscii words → All IsAscii (push_first c words)
push_first-IsAscii c [] a h = ((a, tt), tt)
push_first-IsAscii c (word ∷ words) a (h, hs) = ((a, h), hs)

pub split_words-IsAscii : (s : Str) → IsAscii s → All IsAscii (split_words s)
unfolding split_words
split_words-IsAscii [] h = (tt, tt)
split_words-IsAscii (c ∷ s) (a, h) =
    let rest = split_words-IsAscii s h in
    elim (Bool-cases (is_separator c)) [
      | inl sep ↦
          rw (sep, split_words)
            (elim (Bool-cases (starts_with is_separator s)) [
              | inl more ↦ rw more rest
              | inr last ↦ rw last (tt, rest)
            ])
      | inr char ↦ rw (char, split_words) (push_first-IsAscii c _ a rest)
    ]

module _ (platform : Platform) where
  capitalize_ascii : (s : Str) → IsAscii s → capitalize platform s ≡ capitalize ascii_only s
  capitalize_ascii s h =
      rw
        (
          platform.upper_ascii (take 1 s) (take_one-IsAscii s h),
          platform.lower_ascii (drop 1 s) (drop_one-IsAscii s h),
        )
        refl

  map-capitalize_ascii :
      (words : List Str)
      → All IsAscii words
      → map (capitalize platform) words ≡ map (capitalize ascii_only) words
  map-capitalize_ascii [] h = refl
  map-capitalize_ascii (word ∷ words) (h, hs) =
      rw (capitalize_ascii word h, map-capitalize_ascii words hs) refl

  -- On an ASCII name every platform agrees with the one that knows ASCII alone.
  pub canonicalize_key-ascii :
      (key : Str)
      → all_ascii key ≡ true
      → canonicalize_key platform key ≡ canonicalize_key ascii_only key
  unfolding canonicalize_key
  canonicalize_key-ascii key h =
      rw
        (map-capitalize_ascii (split_words key) (split_words-IsAscii key (all_ascii-IsAscii key h)))
        refl
