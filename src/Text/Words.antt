-- ===== src/Text/Words.antt =====
-- The words of a key, by which canonicalizeKey of js/src/utilities.ts goes: what stands between
-- separators.
use interop.Base.{
  ℕ, ◌≡◌, refl, ap, ◌∙◌, false, List, [], ◌∷◌, ◌++◌, codes, Str, All, Bool-cases, inl, inr,
}
use interop.Text.{is_separator, starts_with, push_first, split_words, join}

abbrev pub IsWord : Str → Type 0
IsWord w = All (λ c. is_separator c ≡ false) w

-- Words behind a separator: only the last of them may be empty.
abbrev pub IsTail : List Str → Type 0
IsTail [] = Unit {0}
IsTail (w ∷ []) = IsWord w
IsTail ([] ∷ v ∷ ws) = ⊥
IsTail ((c ∷ w) ∷ v ∷ ws) = IsWord (c ∷ w) × IsTail (v ∷ ws)

-- The words of a text: only the first and the last may be empty.
abbrev pub IsWords : List Str → Type 0
IsWords [] = ⊥
IsWords (w ∷ ws) = IsWord w × IsTail ws

push_first-IsWords :
    (c : ℕ) (ws : List Str) → is_separator c ≡ false → IsWords ws → IsWords (push_first c ws)
push_first-IsWords c [] n h = absurd h
push_first-IsWords c (w ∷ ws) n (h, t) = ((n, h), t)

push_first-IsTail : (c : ℕ) (ws : List Str) → IsWords (push_first c ws) → IsTail (push_first c ws)
push_first-IsTail c [] (h, t) = h
push_first-IsTail c (w ∷ []) (h, t) = h
push_first-IsTail c (w ∷ v ∷ ws) h = h

split_words-IsTail :
    (s : Str)
    → starts_with is_separator s ≡ false
    → IsWords (split_words s)
    → IsTail (split_words s)
unfolding split_words
split_words-IsTail [] n h = tt
split_words-IsTail (c ∷ s) n h =
    rw (n, split_words) (push_first-IsTail c (split_words s) (rw (n, split_words) at h))

pub split_words-IsWords : (s : Str) → IsWords (split_words s)
unfolding split_words
split_words-IsWords [] = (tt, tt)
split_words-IsWords (c ∷ s) = elim (Bool-cases (is_separator c)) [
  | inl sep ↦
      rw (sep, split_words)
        (elim (Bool-cases (starts_with is_separator s)) [
          | inl more ↦ rw more (split_words-IsWords s)
          | inr last ↦ rw last (tt, split_words-IsTail s last (split_words-IsWords s))
        ])
  | inr char ↦
      rw (char, split_words) (push_first-IsWords c (split_words s) char (split_words-IsWords s))
]

-- Characters in front of the first word.
abbrev prepend : Str → List Str → List Str
prepend [] ws = ws
prepend (c ∷ w) ws = push_first c (prepend w ws)

prepend_nil : (w : Str) (ws : List Str) → prepend w ([] ∷ ws) ≡ w ∷ ws
prepend_nil [] ws = refl
prepend_nil (c ∷ w) ws = ap (push_first c) (prepend_nil w ws)

split_words-append : (w t : Str) → IsWord w → split_words (w ++ t) ≡ prepend w (split_words t)
unfolding split_words
split_words-append [] t h = refl
split_words-append (c ∷ w) t (n, h) =
    rw (n, split_words) (ap (push_first c) (split_words-append w t h))

split_words-last : (w : Str) → IsWord w → split_words w ≡ w ∷ []
unfolding split_words
split_words-last [] h = refl
split_words-last (c ∷ w) (n, h) = rw (n, split_words) (ap (push_first c) (split_words-last w h))

IsTail-IsWords : (v : Str) (ws : List Str) → IsTail (v ∷ ws) → IsWords (v ∷ ws)
IsTail-IsWords v [] h = (h, tt)
IsTail-IsWords [] (w ∷ ws) h = absurd h
IsTail-IsWords (c ∷ v) (w ∷ ws) h = h

-- What follows a separator does not begin with another.
join-starts_with :
    (v : Str) (ws : List Str)
    → IsTail (v ∷ ws)
    → starts_with is_separator (join (codes "-") (v ∷ ws)) ≡ false
unfolding join
join-starts_with [] [] h = refl
join-starts_with (c ∷ v) [] (n, h) = n
join-starts_with [] (w ∷ ws) h = absurd h
join-starts_with (c ∷ v) (w ∷ ws) ((n, h), t) = n

-- Words that are joined are split again.
pub split_words-join :
    (w : Str) (ws : List Str) → IsWords (w ∷ ws) → split_words (join (codes "-") (w ∷ ws)) ≡ w ∷ ws
unfolding split_words join
split_words-join w [] (h, t) = split_words-last w h
split_words-join w (v ∷ ws) (h, t) =
    split_words-append w (codes "-" ++ join (codes "-") (v ∷ ws)) h
    ∙ ap (prepend w) (
        rw (join-starts_with v ws t, split_words)
          (ap (◌∷◌ []) (split_words-join v ws (IsTail-IsWords v ws t))))
    ∙ prepend_nil w (v ∷ ws)
