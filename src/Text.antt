-- ===== src/Text.antt =====
-- What the program uses of JavaScript's strings, over code units, with js/src/utilities.ts's
-- canonicalizeKey. Decoding, encoding and the mapping of case are the platform's: an interface, with
-- the laws that it is relied on for: what it does to ASCII, and that UTF-8 carries well-formed text.
pub mod Canonical
pub mod Lines
pub mod Words
pub mod Keys
use interop.Base.{
  ℕ, ◌-◌, ◌+◌, ◌<◌, ◌≡◌, Bool, true, false, not, ◌&&◌, ◌||◌, List, [], ◌∷◌, ◌++◌, map, Str, codes,
  All, leb, ◌==◌, if◌then◌else◌, Option, none, some, take, drop, length,
}

abbrev pub IsAscii : Str → Type 0
IsAscii s = All (λ c. c < 128) s

abbrev pub ascii_upper : ℕ → ℕ
ascii_upper c = if leb b'a' c && leb c b'z' then c - 32 else c

abbrev pub ascii_lower : ℕ → ℕ
ascii_lower c = if leb b'A' c && leb c b'Z' then c + 32 else c

is_high : ℕ → Bool
is_high c = leb 0xd800 c && leb c 0xdbff

is_low : ℕ → Bool
is_low c = leb 0xdc00 c && leb c 0xdfff

-- Every surrogate is one of a pair; the flag says whether the unit before was the first of one.
unfoldable pub pairs_up : Bool → Str → Bool
unfolding is_high is_low
pairs_up pending [] = not pending
pairs_up pending (c ∷ s) = (if pending then is_low c else not (is_low c)) && pairs_up (is_high c) s

-- A text that UTF-8 can carry: its surrogates are paired, and it starts with no byte order mark.
unfoldable pub is_well_formed : Str → Bool
unfolding pairs_up
is_well_formed [] = true
is_well_formed (c ∷ s) = not (c == 0xfeff) && pairs_up false (c ∷ s)

-- `Blob.text()` and `new Blob([text])` are UTF-8; `toUpperCase` and `toLowerCase` are Unicode's.
pub record Platform : Type 0 where
  pub decode : List ℕ → Str
  pub encode : Str → List ℕ
  pub upper : Str → Str
  pub lower : Str → Str
  pub decode_ascii : (s : Str) → IsAscii s → decode s ≡ s
  pub encode_ascii : (s : Str) → IsAscii s → encode s ≡ s
  pub decode-encode : (s : Str) → is_well_formed s ≡ true → decode (encode s) ≡ s
  pub upper_ascii : (s : Str) → IsAscii s → upper s ≡ map ascii_upper s
  pub lower_ascii : (s : Str) → IsAscii s → lower s ≡ map ascii_lower s

-- `\s`, and what `trim` removes: white space and line terminators.
unfoldable pub is_space : ℕ → Bool
is_space c =
    (leb 9 c && leb c 13)
    || c == 32
    || c == 0xa0
    || c == 0x1680
    || (leb 0x2000 c && leb c 0x200a)
    || c == 0x2028
    || c == 0x2029
    || c == 0x202f
    || c == 0x205f
    || c == 0x3000
    || c == 0xfeff

unfoldable pub trim_start : Str → Str
unfolding is_space
trim_start [] = []
trim_start (c ∷ s) = if is_space c then trim_start s else c ∷ s

-- A character in front of a text whose end has been trimmed.
abbrev pub cons_trimmed : ℕ → Str → Str
cons_trimmed c [] = if is_space c then [] else c ∷ []
cons_trimmed c (d ∷ t) = c ∷ d ∷ t

unfoldable pub trim_end : Str → Str
unfolding is_space
trim_end [] = []
trim_end (c ∷ s) = cons_trimmed c (trim_end s)

unfoldable pub trim : Str → Str
unfolding trim_start trim_end
trim s = trim_end (trim_start s)

-- `indexOf` of one code unit.
unfoldable pub index_of : ℕ → Str → Option ℕ
index_of c [] = none
index_of c (d ∷ s) =
    if d == c then some 0 else elim (index_of c s) [ none ↦ none | some i ↦ some (i + 1) ]

abbrev pub starts_with : (ℕ → Bool) → Str → Bool
starts_with p [] = false
starts_with p (c ∷ _) = p c

abbrev pub push_first : ℕ → List Str → List Str
push_first c [] = (c ∷ []) ∷ []
push_first c (s ∷ ss) = (c ∷ s) ∷ ss

-- `split(/\r?\n/)`: a carriage return before a line feed goes with it.
unfoldable pub split_lines : Str → List Str
split_lines [] = [] ∷ []
split_lines (c ∷ s) =
    let rest = split_lines s in
    if c == 10
    then [] ∷ rest
    else if c == 13 && starts_with (λ d. d == 10) s
    then rest
    else push_first c rest

-- `[-_\s]`
unfoldable pub is_separator : ℕ → Bool
unfolding is_space
is_separator c = c == b'-' || c == b'_' || is_space c

-- `split(/[-_\s]+/)`: a run of separators splits once.
unfoldable pub split_words : Str → List Str
unfolding is_separator
split_words [] = [] ∷ []
split_words (c ∷ s) =
    let rest = split_words s in
    if is_separator c
    then if starts_with is_separator s then rest else [] ∷ rest
    else push_first c rest

unfoldable pub join : Str → List Str → Str
join sep [] = []
join sep (s ∷ []) = s
join sep (s ∷ t ∷ ss) = s ++ (sep ++ join sep (t ∷ ss))

module _ (platform : Platform) where
  abbrev pub capitalize : Str → Str
  capitalize s = platform.upper (take 1 s) ++ platform.lower (drop 1 s)

  unfoldable pub canonicalize_key : Str → Str
  unfolding split_words join
  canonicalize_key key = join (codes "-") (map capitalize (split_words key))
