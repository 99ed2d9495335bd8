-- ===== src/Text/Keys.antt =====
-- When canonicalizeKey of js/src/utilities.ts takes two keys for the same.
use interop.Base.{
  ℕ, ◌<◌, ◌≡◌, ◌↔◌, refl, sym, ap, ◌∙◌, true, List, [], ◌∷◌, ◌++◌, map, codes, Str, All, arith,
}
use interop.Text.{
  Platform, IsAscii, ascii_upper, ascii_lower, is_separator, is_space, split_words, join,
  capitalize, canonicalize_key,
}
use interop.Text.Canonical.{
  ascii_only, all_ascii, all_ascii-IsAscii, split_words-IsAscii, canonicalize_key-ascii,
}
use interop.Text.Words.{IsWord, IsWords, IsTail, split_words-IsWords, split_words-join}

-- The words of a key, in lower case.
abbrev pub words : Str → List Str
words key = map (map ascii_lower) (split_words key)

abbrev cap : Str → Str
cap = capitalize ascii_only

lower-upper : (c : ℕ) → ascii_lower (ascii_upper c) ≡ ascii_lower c
lower-upper c = ground arith

lower-lower : (c : ℕ) → ascii_lower (ascii_lower c) ≡ ascii_lower c
lower-lower c = ground arith

upper-lower : (c : ℕ) → ascii_upper (ascii_lower c) ≡ ascii_upper c
upper-lower c = ground arith

upper-upper : (c : ℕ) → ascii_upper (ascii_upper c) ≡ ascii_upper c
upper-upper c = ground arith

upper-is_separator : (c : ℕ) → is_separator (ascii_upper c) ≡ is_separator c
unfolding is_separator is_space
upper-is_separator c = ground arith

lower-is_separator : (c : ℕ) → is_separator (ascii_lower c) ≡ is_separator c
unfolding is_separator is_space
lower-is_separator c = ground arith

map-lower_lower : (s : Str) → map ascii_lower (map ascii_lower s) ≡ map ascii_lower s
map-lower_lower [] = refl
map-lower_lower (c ∷ s) = rw (lower-lower c, map-lower_lower s) refl

cap-lower : (w : Str) → cap (map ascii_lower w) ≡ cap w
cap-lower [] = refl
cap-lower (c ∷ w) = rw (upper-lower c, map-lower_lower w) refl

lower-cap : (w : Str) → map ascii_lower (cap w) ≡ map ascii_lower w
lower-cap [] = refl
lower-cap (c ∷ w) = rw (lower-upper c, map-lower_lower w) refl

cap-cap : (w : Str) → cap (cap w) ≡ cap w
cap-cap [] = refl
cap-cap (c ∷ w) = rw (upper-upper c, map-lower_lower w) refl

map-absorbed :
    {A : Type 0} (f g h : A → A)
    → ((x : A) → f (g x) ≡ h x)
    → (xs : List A) → map f (map g xs) ≡ map h xs
map-absorbed f g h e [] = refl
map-absorbed f g h e (x ∷ xs) = rw (e x, map-absorbed f g h e xs) refl

lower-IsWord : (w : Str) → IsWord w → IsWord (map ascii_lower w)
lower-IsWord [] h = tt
lower-IsWord (c ∷ w) (n, h) = (lower-is_separator c ∙ n, lower-IsWord w h)

cap-IsWord : (w : Str) → IsWord w → IsWord (cap w)
cap-IsWord [] h = tt
cap-IsWord (c ∷ w) (n, h) = (upper-is_separator c ∙ n, lower-IsWord w h)

cap-IsTail : (ws : List Str) → IsTail ws → IsTail (map cap ws)
cap-IsTail [] h = tt
cap-IsTail (w ∷ []) h = cap-IsWord w h
cap-IsTail ([] ∷ v ∷ ws) h = absurd h
cap-IsTail ((c ∷ w) ∷ v ∷ ws) (h, t) = (cap-IsWord (c ∷ w) h, cap-IsTail (v ∷ ws) t)

-- The words of a canonical key.
split_words-capitalized :
    (ws : List Str) → IsWords ws → split_words (join (codes "-") (map cap ws)) ≡ map cap ws
split_words-capitalized [] h = absurd h
split_words-capitalized (w ∷ ws) (h, t) =
    split_words-join (cap w) (map cap ws) (cap-IsWord w h, cap-IsTail ws t)

split_words-canonical :
    (key : Str) → split_words (canonicalize_key ascii_only key) ≡ map cap (split_words key)
unfolding canonicalize_key
split_words-canonical key = split_words-capitalized (split_words key) (split_words-IsWords key)

-- A canonical key has the words of the key it is made of.
words-canonical : (key : Str) → words (canonicalize_key ascii_only key) ≡ words key
words-canonical key =
    ap (map (map ascii_lower)) (split_words-canonical key)
    ∙ map-absorbed (map ascii_lower) cap (map ascii_lower) lower-cap (split_words key)

canonical-words :
    (key : Str) → canonicalize_key ascii_only key ≡ join (codes "-") (map cap (words key))
unfolding canonicalize_key
canonical-words key =
    ap (join (codes "-")) (sym (map-absorbed cap (map ascii_lower) cap cap-lower (split_words key)))

-- Two ASCII keys have the same canonical key if and only if they have the same words in the same
-- order, whatever the case of their letters, and whatever white space, dashes and underscores
-- stand between the words.
pub canonicalize_key_iff :
    (platform : Platform) (key key' : Str)
    → all_ascii key ≡ true
    → all_ascii key' ≡ true
    → (canonicalize_key platform key ≡ canonicalize_key platform key') ↔ (words key ≡ words key')
canonicalize_key_iff platform key key' a a' =
    let e = canonicalize_key-ascii platform key a in
    let e' = canonicalize_key-ascii platform key' a' in
    (
      (λ h. sym (words-canonical key) ∙ ap words (sym e ∙ h ∙ e') ∙ words-canonical key'),
      (λ h.
          e
          ∙ canonical-words key
          ∙ ap (λ ws. join (codes "-") (map cap ws)) h
          ∙ sym (canonical-words key')
          ∙ sym e'),
    )

lower-is_ascii : (c : ℕ) → c < 128 → ascii_lower c < 128
lower-is_ascii c h = ground arith

upper-is_ascii : (c : ℕ) → c < 128 → ascii_upper c < 128
upper-is_ascii c h = ground arith

lower-IsAscii : (s : Str) → IsAscii s → IsAscii (map ascii_lower s)
lower-IsAscii [] h = tt
lower-IsAscii (c ∷ s) (a, h) = (lower-is_ascii c a, lower-IsAscii s h)

cap-IsAscii : (w : Str) → IsAscii w → IsAscii (cap w)
cap-IsAscii [] h = tt
cap-IsAscii (c ∷ w) (a, h) = (upper-is_ascii c a, lower-IsAscii w h)

append-IsAscii : (s t : Str) → IsAscii s → IsAscii t → IsAscii (s ++ t)
append-IsAscii [] t h h' = h'
append-IsAscii (c ∷ s) t (a, h) h' = (a, append-IsAscii s t h h')

capitalized-IsAscii : (ws : List Str) → All IsAscii ws → IsAscii (join (codes "-") (map cap ws))
unfolding join
capitalized-IsAscii [] h = tt
capitalized-IsAscii (w ∷ []) (h, hs) = cap-IsAscii w h
capitalized-IsAscii (w ∷ v ∷ ws) (h, hs) =
    append-IsAscii (cap w) _ (cap-IsAscii w h) (omega arith, capitalized-IsAscii (v ∷ ws) hs)

IsAscii-all_ascii : (s : Str) → IsAscii s → all_ascii s ≡ true
IsAscii-all_ascii [] h = refl
IsAscii-all_ascii (c ∷ s) (a, h) = ground (arith, IsAscii-all_ascii s h)

canonical-all_ascii :
    (key : Str) → all_ascii key ≡ true → all_ascii (canonicalize_key ascii_only key) ≡ true
unfolding canonicalize_key
canonical-all_ascii key a =
    IsAscii-all_ascii _
      (capitalized-IsAscii (split_words key) (split_words-IsAscii key (all_ascii-IsAscii key a)))

-- The canonical form of an ASCII key is its own.
pub canonicalize_key-canonicalize_key :
    (platform : Platform) (key : Str)
    → all_ascii key ≡ true
    → canonicalize_key platform (canonicalize_key platform key) ≡ canonicalize_key platform key
canonicalize_key-canonicalize_key platform key a =
    let e = canonicalize_key-ascii platform key a in
    ap (canonicalize_key platform) e
    ∙ (canonicalize_key_iff platform (canonicalize_key ascii_only key) key
          (canonical-all_ascii key a) a).1
        (words-canonical key)
