-- ===== src/Parse/Names.antt =====
-- The headers of a message that js/src/parseMessageFromBlob.ts read, as js/src/messages.ts looks them
-- up.
use interop.Base.{
  ℕ, ◌+◌, ◌≡◌, ◌↔◌, refl, sym, ap, ◌∙◌, Bool, true, false, ◌&&◌, List, [], ◌∷◌, Str, str_eq,
  str_eq_iff, if◌then◌else◌, Option, none, some, All, take, drop, arith, Bool-cases, Option-cases,
  inl, inr,
}
use interop.Text.{Platform, trim, trim_start, index_of, split_lines, canonicalize_key}
use interop.Text.Canonical.{all_ascii}
use interop.Text.Keys.{words, canonicalize_key_iff, canonicalize_key-canonicalize_key}
use interop.Headers.{Headers, get, set, assign, from_entries}
use interop.Headers.Laws.{get-set}
use interop.Message.{Message, Blob}
use interop.Messages.{
  HeaderValue, missing, text, inherited, look_up, message_header, message_header-canonical, or_else,
}
use interop.Prototype.{inherited_names, is_one_of}
use interop.Prototype.Keys.{inherited-ne-canonical, canonicalize_key-inherited}
use interop.Wire.{extract_headers_from_blob}
use interop.Parse.{parse_message_from_blob, parse_lines, parse_line, entry_at, ok}
use interop.Parse.Errors.{parse-Parsed, >>=-eq-ok}

abbrev words_eq : List Str → List Str → Bool
words_eq [] [] = true
words_eq (s ∷ ss) (t ∷ ts) = str_eq s t && words_eq ss ts
words_eq _ _ = false

words_eq_iff : (ss ts : List Str) → (words_eq ss ts ≡ true) ↔ (ss ≡ ts)
words_eq_iff [] [] = (λ h. refl, λ h. refl)
words_eq_iff [] (t ∷ ts) = (λ h. absurd (cc h), λ h. absurd (cc h))
words_eq_iff (s ∷ ss) [] = (λ h. absurd (cc h), λ h. absurd (cc h))
words_eq_iff (s ∷ ss) (t ∷ ts) = (
  λ h. ground (arith, str_eq_iff s t, words_eq_iff ss ts),
  λ h. ground (arith, str_eq_iff s t, words_eq_iff ss ts),
)

-- The value of a line whose name has the words of the key.
abbrev value_of : Str → Str → Option ℕ → Option Str
value_of key line none = none
value_of key line (some i) =
    if words_eq (words (take i line)) (words key)
    then some (trim_start (drop (i + 1) line))
    else none

abbrev later_or : Option Str → Option Str → Option Str
later_or none earlier = earlier
later_or (some value) earlier = some value

-- The value of the last such line.
abbrev pub last_value : Str → List Str → Option Str
last_value key [] = none
last_value key (line ∷ lines) =
    later_or (last_value key lines) (value_of key line (index_of b':' line))

-- The names of the lines are ASCII.
abbrev pub AsciiNames : List Str → Type 0
AsciiNames lines =
    All (λ line. (i : ℕ) → index_of b':' line ≡ some i → all_ascii (take i line) ≡ true) lines

-- The lines of a header block.
abbrev pub header_lines_of : Platform → Blob → List Str
header_lines_of platform blob =
    split_lines (trim (platform.decode (extract_headers_from_blob blob)))

abbrev text_or_missing : Option Str → HeaderValue
text_or_missing none = missing
text_or_missing (some value) = text value

-- What an object has under a key that has this value of its own under the canonical key.
abbrev pub value_under : Str → Option Str → HeaderValue
value_under key value =
    if is_one_of key inherited_names then inherited key else text_or_missing value

look_up-text :
    (key : Str) (h : Headers)
    → is_one_of key inherited_names ≡ false
    → look_up key h ≡ text_or_missing (get key h)
unfolding look_up
look_up-text key h own = elim (Option-cases (get key h)) [
  | inl absent ↦ rw (absent, look_up) (rw own refl)
  | inr (value, present) ↦ rw (present, look_up) refl
]

abbrev last_entry : Str → List (Str × Str) → Option Str
last_entry key [] = none
last_entry key ((k, v) ∷ es) = later_or (last_entry key es) (if str_eq k key then some v else none)

get-assign :
    (key : Str) (target : Headers) (es : List (Str × Str))
    → get key (assign target es) ≡ later_or (last_entry key es) (get key target)
unfolding assign
get-assign key target [] = refl
get-assign key target ((k, v) ∷ es) =
    get-assign key (set k v target) es
    ∙ ap (later_or (last_entry key es)) (get-set k key v target)
    ∙ regroup (last_entry key es)
  where
    regroup :
        (later : Option Str)
        → later_or later (if str_eq k key then some v else get key target)
          ≡ later_or (later_or later (if str_eq k key then some v else none)) (get key target)
    regroup none = ground arith
    regroup (some w) = refl

get-from_entries :
    (key : Str) (es : List (Str × Str)) → get key (from_entries es) ≡ last_entry key es
unfolding from_entries get
get-from_entries key es = get-assign key [] es ∙ none_before (last_entry key es)
  where
    none_before : (later : Option Str) → later_or later none ≡ later
    none_before none = refl
    none_before (some w) = refl

module _ (platform : Platform) (key : Str) (a : all_ascii key ≡ true) where
  -- A name is taken for the key exactly if it has its words.
  same_key :
      (name : Str)
      → all_ascii name ≡ true
      → str_eq (canonicalize_key platform name) (canonicalize_key platform key)
        ≡ words_eq (words name) (words key)
  same_key name b = ground (
    arith,
    str_eq_iff (canonicalize_key platform name) (canonicalize_key platform key),
    canonicalize_key_iff platform name key b a,
    words_eq_iff (words name) (words key),
  )

  -- A line that is read gives its value under the key, if it is the key's.
  parse_line-value :
      (line : Str) (entry : Str × Str)
      → ((i : ℕ) → index_of b':' line ≡ some i → all_ascii (take i line) ≡ true)
      → parse_line platform line ≡ ok entry
      → (if str_eq entry.0 (canonicalize_key platform key) then some entry.1 else none)
        ≡ value_of key line (index_of b':' line)
  unfolding parse_line
  parse_line-value line entry names e = elim (Option-cases (index_of b':' line)) [
    | inl miss ↦ absurd (ground arith)
    | inr (i, hit) ↦
        let read : entry_at platform i line ≡ entry = ground arith in
        rw (hit, ← read) (rw (same_key (take i line) (names i hit)) refl)
  ]

  last_entry-parse_lines :
      (lines : List Str) (es : List (Str × Str))
      → AsciiNames lines
      → parse_lines platform lines ≡ ok es
      → last_entry (canonicalize_key platform key) es ≡ last_value key lines
  unfolding parse_lines
  last_entry-parse_lines [] es n e = ground arith
  last_entry-parse_lines (line ∷ lines) es (n, ns) e =
      let (entry, first, e') = >>=-eq-ok (parse_line platform line) _ e in
      let (rest, others, e'') = >>=-eq-ok (parse_lines platform lines) _ e' in
      let whole : entry ∷ rest ≡ es = ground arith in
      rw (← whole) (
        ap (later_or (last_entry (canonicalize_key platform key) rest))
          (parse_line-value line entry n first)
        ∙ ap (λ later. later_or later (value_of key line (index_of b':' line)))
            (last_entry-parse_lines lines rest ns others))

  -- A key that is not canonical is no name that was read.
  last_entry-other :
      (lines : List Str) (es : List (Str × Str))
      → str_eq (canonicalize_key platform key) key ≡ false
      → AsciiNames lines
      → parse_lines platform lines ≡ ok es
      → last_entry key es ≡ none
  unfolding parse_lines parse_line
  last_entry-other [] es o n e = ground arith
  last_entry-other (line ∷ lines) es o (n, ns) e =
      let (entry, first, e') = >>=-eq-ok (parse_line platform line) _ e in
      let (rest, others, e'') = >>=-eq-ok (parse_lines platform lines) _ e' in
      let whole : entry ∷ rest ≡ es = ground arith in
      rw (← whole, last_entry-other lines rest o ns others) (rw (not_key entry first) refl)
    where
      not_key :
          (entry : Str × Str) → parse_line platform line ≡ ok entry → str_eq entry.0 key ≡ false
      not_key entry first = elim (Option-cases (index_of b':' line)) [
        | inl miss ↦ absurd (ground arith)
        | inr (i, hit) ↦
            let read : entry_at platform i line ≡ entry = ground arith in
            let own : canonicalize_key platform entry.0 ≡ entry.0 =
              rw (← read) (canonicalize_key-canonicalize_key platform (take i line) (n i hit)) in
            ground
              (arith, str_eq_iff entry.0 key, str_eq_iff (canonicalize_key platform key) key, own)
      ]

  -- A blob is read as a message, and the names of its header lines are ASCII. Then what
  -- messageHeader returns for an ASCII key is the value of the last line whose name has the same
  -- words as the key, whatever the case of their letters and what stands between the words, and
  -- undefined if there is no such line; but for a key that is a name of Object.prototype it is
  -- what every object has under that name, whatever the lines say.
  pub message_header-parsed :
      (blob : Blob) (m : Message)
      → parse_message_from_blob platform blob ≡ ok m
      → AsciiNames (header_lines_of platform blob)
      → message_header platform m key
        ≡ value_under key (last_value key (header_lines_of platform blob))
  unfolding message_header look_up
  message_header-parsed blob m h names =
      let p = parse-Parsed platform blob m h in
      let lines = header_lines_of platform blob in
      let found : get (canonicalize_key platform key) m.headers ≡ last_value key lines =
        ap (get (canonicalize_key platform key)) p.headers
        ∙ get-from_entries (canonicalize_key platform key) p.entries
        ∙ last_entry-parse_lines lines p.entries names p.lines in
      let second : look_up (canonicalize_key platform key) m.headers
          ≡ text_or_missing (last_value key lines) =
        look_up-text (canonicalize_key platform key) m.headers
          (canonicalize_key-inherited platform key a)
        ∙ ap text_or_missing found in
      let other : str_eq (canonicalize_key platform key) key ≡ false → get key m.headers ≡ none =
        λ n.
          ap (get key) p.headers
          ∙ get-from_entries key p.entries
          ∙ last_entry-other lines p.entries n names p.lines in
      elim (Bool-cases (is_one_of key inherited_names)) [
        | inl of_all ↦
            rw (other (inherited-ne-canonical platform key of_all), message_header, look_up)
              (rw of_all refl)
        | inr own ↦ rw own (elim (Bool-cases (str_eq (canonicalize_key platform key) key)) [
          | inl canonical ↦
              let same = (str_eq_iff (canonicalize_key platform key) key).0 canonical in
              message_header-canonical platform m key same
              ∙ ap (λ k. look_up k m.headers) (sym same)
              ∙ second
          | inr n ↦
              ap (λ x. or_else x (look_up (canonicalize_key platform key) m.headers))
                (look_up-text key m.headers own ∙ ap text_or_missing (other n))
              ∙ second
        ])
      ]
