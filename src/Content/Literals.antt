-- ===== src/Content/Literals.antt =====
-- An environment that shows that the laws of `Content.Json` can hold: the JSON of three literals.
use interop.Base.{ℕ, ◌≡◌, refl, true, false, Str, str_eq, codes, Option, some, if◌then◌else◌}
use interop.Text.{is_well_formed}
use interop.Text.Canonical.{ascii_only}
use interop.Dispatcher.{Decoded, decoded, failed}
use interop.Values.{
  Value, undefined, null, boolean, number, string, function, blob_value, array, object,
}
use interop.Content.{Json, Runtime, is_json}

abbrev pub stringify_literal : Value → Decoded (Option Str) ℕ
stringify_literal null = decoded (some (codes "null"))
stringify_literal (boolean true) = decoded (some (codes "true"))
stringify_literal (boolean false) = decoded (some (codes "false"))
stringify_literal _ = failed 0

unfoldable pub parse_literal : Str → Decoded Value ℕ
unfolding str_eq
parse_literal s =
    if str_eq s (codes "null")
    then decoded null
    else if str_eq s (codes "true")
    then decoded (boolean true)
    else if str_eq s (codes "false")
    then decoded (boolean false)
    else failed 1

some_text :
    (s t : Str) → ◌≡◌ {A = Decoded (Option Str) ℕ} (decoded (some s)) (decoded (some t)) → s ≡ t
some_text s t e = cc

pub literal_well_formed :
    (v : Value) (s : Str) → stringify_literal v ≡ decoded (some s) → is_well_formed s ≡ true
unfolding is_well_formed
literal_well_formed null s e = rw (← some_text _ s e) refl
literal_well_formed (boolean true) s e = rw (← some_text _ s e) refl
literal_well_formed (boolean false) s e = rw (← some_text _ s e) refl
literal_well_formed undefined s e = cc
literal_well_formed (number n) s e = cc
literal_well_formed (string t) s e = cc
literal_well_formed (function f) s e = cc
literal_well_formed (blob_value b) s e = cc
literal_well_formed (array xs) s e = cc
literal_well_formed (object fields) s e = cc

pub parse-stringify_literal :
    (v : Value) (s : Str)
    → is_json v ≡ true
    → stringify_literal v ≡ decoded (some s)
    → parse_literal s ≡ decoded v
unfolding parse_literal
parse-stringify_literal null s j e = rw (← some_text _ s e) refl
parse-stringify_literal (boolean true) s j e = rw (← some_text _ s e) refl
parse-stringify_literal (boolean false) s j e = rw (← some_text _ s e) refl
parse-stringify_literal undefined s j e = cc
parse-stringify_literal (number n) s j e = cc
parse-stringify_literal (string t) s j e = cc
parse-stringify_literal (function f) s j e = cc
parse-stringify_literal (blob_value b) s j e = cc
parse-stringify_literal (array xs) s j e = cc
parse-stringify_literal (object fields) s j e = cc

abbrev pub literal_json : Json ℕ
literal_json = record {
  stringify = stringify_literal;
  parse = parse_literal;
  stringify_well_formed = literal_well_formed;
  parse-stringify = parse-stringify_literal;
}

-- Every value prints as its kind, and no functions are the user's.
abbrev pub literal_runtime : Runtime ℕ
literal_runtime = record {
  platform = ascii_only;
  json = literal_json;
  string_of = λ v. codes "[value]";
  user_marshal = λ f v. failed 2;
  user_unmarshal = λ f b. failed 2;
  type_error = 3;
}
