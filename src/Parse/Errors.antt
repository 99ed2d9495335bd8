-- ===== src/Parse/Errors.antt =====
-- What js/src/parseMessageFromBlob.ts refuses, and what it never returns.
use Prim.Native.Nat.{min}
use native.Mathlib.Decide.{dec_lt}
use interop.Base.{
  ℕ, suc, ◌+◌, ◌-◌, ◌≡◌, ◌≢◌, ◌⊎◌, inl, inr, refl, sym, ap, ◌∙◌, List, [], ◌∷◌, ◌++◌, Str, none,
  some, All, length, drop, pos, length-take, length-drop, slice, slice_from, arith, Option-cases,
}
use interop.Text.{Platform, index_of, split_lines, push_first, trim}
use interop.Header
use interop.Headers.{Headers, get, set, assign, from_entries}
use interop.Headers.Entries.{set-ne}
use interop.Message.{Message, Blob}
use interop.Number.{parse_int}
use interop.Wire.{extract_headers_from_blob}
use interop.Parse.{
  parse_message_from_blob, parse_lines, parse_line, entry_at, read_body, cut_body, Result, ok, err,
  ◌>>=◌, expected_colon,
}

abbrev pub HasColon : Str → Type 0
HasColon line = index_of b':' line ≢ none

-- The first line that has no colon.
pub record FirstBad (lines : List Str) (bad : Str) : Type 0 where
  pub before : List Str
  pub after : List Str
  pub split : lines ≡ before ++ bad ∷ after
  pub good : All HasColon before
  pub no_colon : index_of b':' bad ≡ none

-- What becomes of the lines: all are entries, or the error names the first that has no colon.
abbrev pub LinesRead : Platform → List Str → Type 0
LinesRead platform lines =
    (All HasColon lines
      × ((entries : List (Str × Str)) × (parse_lines platform lines ≡ ok entries)
          × (length entries ≡ length lines)))
    ⊎ ((bad : Str) × FirstBad lines bad × (parse_lines platform lines ≡ err (expected_colon bad)))

module _ (platform : Platform) where
  -- Either every line has a colon, and as many entries are read as there are lines, or reading
  -- fails with the error that names the first line that has none.
  pub parse_lines_cases : (lines : List Str) → LinesRead platform lines
  unfolding parse_lines parse_line
  parse_lines_cases [] = inl (tt, ([], refl, refl))
  parse_lines_cases (line ∷ lines) = elim (Option-cases (index_of b':' line)) [
    | inl miss ↦ inr (
      line,
      record { before = []; after = lines; split = refl; good = tt; no_colon = miss },
      rw (miss, parse_line) refl,
    )
    | inr (i, hit) ↦ elim (parse_lines_cases lines) [
      | inl (all, (entries, e, l)) ↦ inl (
        (λ n. cc, all),
        (entry_at platform i line ∷ entries, rw (hit, parse_line) (rw e refl), ap suc l),
      )
      | inr (bad, first, e) ↦ inr (
        bad,
        record {
          before = line ∷ first.before;
          after = first.after;
          split = ap (◌∷◌ line) first.split;
          good = (λ n. cc, first.good);
          no_colon = first.no_colon;
        },
        rw (hit, parse_line) (rw e refl),
      )
    ]
  ]

push_first-ne : (c : ℕ) (ss : List Str) → push_first c ss ≢ []
push_first-ne c [] e = cc
push_first-ne c (s ∷ ss) e = cc

split_lines-ne : (s : Str) → split_lines s ≢ []
unfolding split_lines
split_lines-ne [] e = cc
split_lines-ne (c ∷ s) e = ground (arith, split_lines-ne s, push_first-ne c (split_lines s))

assign-ne : (target source : Headers) → target ≢ [] → assign target source ≢ []
unfolding assign
assign-ne target [] n = n
assign-ne target (e ∷ source) n = assign-ne (set e.0 e.1 target) source (set-ne e.0 e.1 target)

from_entries-ne : (entries : List (Str × Str)) → entries ≢ [] → from_entries entries ≢ []
unfolding from_entries
from_entries-ne [] n = n
from_entries-ne (e ∷ entries) n = assign-ne (set e.0 e.1 []) entries (set-ne e.0 e.1 [])

pub >>=-eq-ok {κ ι} :
    {X : Type κ} {Y : Type ι} (first : Result X) (next : X → Result Y) {result : Y}
    → (first >>= next) ≡ ok result
    → (value : X) × (first ≡ ok value) × (next value ≡ ok result)
>>=-eq-ok (err thrown) next h = cc
>>=-eq-ok (ok value) next h = (value, refl, h)

-- A message that was read: its headers are those of its lines, and its body was cut to length.
pub record Parsed (platform : Platform) (blob : Blob) (m : Message) : Type 0 where
  pub entries : List (Str × Str)
  pub lines :
      parse_lines platform (split_lines (trim (platform.decode (extract_headers_from_blob blob))))
      ≡ ok entries
  pub headers : m.headers ≡ from_entries entries
  pub rest : Blob
  pub body : read_body platform m.headers rest ≡ ok m.body

module _ (platform : Platform) where
  pub parse-Parsed :
      (blob : Blob) (m : Message)
      → parse_message_from_blob platform blob ≡ ok m
      → Parsed platform blob m
  unfolding parse_message_from_blob
  parse-Parsed blob m h =
      let (entries, lines, h') = >>=-eq-ok (parse_lines platform _) _ h in
      let (body, cut, h'') = >>=-eq-ok (read_body platform (from_entries entries) _) _ h' in
      let headers : m.headers ≡ from_entries entries = ground arith in
      let whole : body ≡ m.body = ground arith in
      record {
        entries = entries;
        lines = lines;
        headers = headers;
        rest = slice_from blob (pos (length (extract_headers_from_blob blob)));
        body = rw (headers, ← whole) cut;
      }

  entries-ne :
      (lines : List Str) (entries : List (Str × Str))
      → lines ≢ []
      → parse_lines platform lines ≡ ok entries
      → entries ≢ []
  unfolding parse_lines
  entries-ne [] entries n h e = n refl
  entries-ne (line ∷ lines) entries n h e =
      let (first, _, h') = >>=-eq-ok (parse_line platform line) _ h in
      let (more, _, h'') = >>=-eq-ok (parse_lines platform lines) _ h' in
      let cons : first ∷ more ≡ entries = ground arith in cc

  -- No blob is read as a message without headers, so one that is written without headers is not
  -- read back.
  pub parse-headers-ne :
      (blob : Blob) (m : Message) → parse_message_from_blob platform blob ≡ ok m → m.headers ≢ []
  parse-headers-ne blob m h e =
      let p = parse-Parsed blob m h in
      from_entries-ne p.entries (entries-ne _ p.entries (split_lines-ne _) p.lines)
        (sym p.headers ∙ e)

  cut_body-length :
      (n : ℕ) (rest body : Blob) → cut_body platform (some (pos n)) rest ≡ ok body → length body ≡ n
  cut_body-length n rest body h = elim (dec_lt n (length rest)) [
    | yes inside ↦
        unfold cut_body in
        let size : length (slice rest (pos 0) (pos n)) ≡ n =
          unfold slice in
          omega (
            arith,
            length-take (min n (length rest) - min 0 (length rest))
                (drop (min 0 (length rest)) rest),
            length-drop (min 0 (length rest)) rest,
          ) in
        ground arith
    | no outside ↦
        let nothing : slice rest (pos n) (pos (n + 2)) ≡ [] =
          let size : min (n + 2) (length rest) - min n (length rest) ≡ 0 = omega arith in
          unfold slice in rw size refl in
        let no_text : platform.decode [] ≡ [] = platform.decode_ascii [] tt in
        unfold cut_body in ground arith
  ]

  -- A body that is accepted under a Content-Length that reads as the number n has exactly n bytes.
  pub parse-content_length :
      (blob : Blob) (m : Message) (value : Str) (n : ℕ)
      → parse_message_from_blob platform blob ≡ ok m
      → get Header.content_length m.headers ≡ some value
      → parse_int value ≡ some (pos n)
      → length m.body ≡ n
  unfolding read_body
  parse-content_length blob m value n h e v =
      let p = parse-Parsed blob m h in
      let cut : cut_body platform (parse_int value) p.rest ≡ ok m.body =
        rw (e, read_body) at p.body in
      cut_body-length n p.rest m.body (rw v at cut)
