-- ===== src/Headers.antt =====
-- js/src/Headers.ts and js/src/Header.ts: a headers object is the list of its own properties, in the
-- order in which JavaScript enumerates them, with the operations that the program uses of objects:
-- reading, assigning, `in`, Object.assign, Object.entries and Object.fromEntries.
pub mod Laws
pub mod Entries
use interop.Base.{
  ℕ, ◌+◌, ◌-◌, ◌*◌, ◌<◌, Bool, true, false, ◌&&◌, ◌||◌, List, [], ◌∷◌, ◌++◌, Str, str_eq, leb, ltb,
  ◌==◌, if◌then◌else◌, Option, none, some, length,
}

abbrev pub Headers : Type 0
Headers = List (Str × Str)

-- The own property of a key, where `none` is that there is none. For a key that Object.prototype does
-- not have this is `headers[key]`; Messages has what is read under any key.
unfoldable pub get : Str → Headers → Option Str
unfolding str_eq
get key [] = none
get key ((k, v) ∷ h) = if str_eq k key then some v else get key h

-- `key in headers`, for a key that Object.prototype does not have.
unfoldable pub has : Str → Headers → Bool
unfolding str_eq
has key [] = false
has key ((k, v) ∷ h) = if str_eq k key then true else has key h

digits_value : ℕ → Str → Option ℕ
digits_value n [] = some n
digits_value n (c ∷ s) =
    if leb b'0' c && leb c b'9' then digits_value (n * 10 + (c - b'0')) s else none

-- An array index is a number below 2^32 - 1, written in decimal with no leading zero.
unfoldable pub array_index : Str → Option ℕ
unfolding digits_value
array_index [] = none
array_index (c ∷ []) = digits_value 0 (c ∷ [])
array_index (c ∷ d ∷ s) =
    if c == b'0' || ltb 10 (length (c ∷ d ∷ s)) then none else elim (digits_value 0 (c ∷ d ∷ s)) [
      | none ↦ none
      | some n ↦ if ltb n 0xffffffff then some n else none
    ]

-- JavaScript enumerates the array indices first, by value, and then the other keys as they came.
unfoldable pub comes_before : Option ℕ → Option ℕ → Bool
comes_before none _ = false
comes_before (some i) none = true
comes_before (some i) (some j) = ltb i j

unfoldable pub insert_new : Str → Str → Headers → Headers
unfolding comes_before array_index
insert_new key value [] = (key, value) ∷ []
insert_new key value ((k, v) ∷ h) =
    if comes_before (array_index key) (array_index k)
    then (key, value) ∷ (k, v) ∷ h
    else (k, v) ∷ insert_new key value h

replace : Str → Str → Headers → Headers
unfolding str_eq
replace key value [] = []
replace key value ((k, v) ∷ h) =
    if str_eq k key then (k, value) ∷ h else (k, v) ∷ replace key value h

-- `headers[key] = value`
unfoldable pub set : Str → Str → Headers → Headers
unfolding has insert_new replace
set key value h = if has key h then replace key value h else insert_new key value h

-- Object.assign(target, source)
unfoldable pub assign : Headers → Headers → Headers
unfolding set
assign target [] = target
assign target ((k, v) ∷ source) = assign (set k v target) source

-- Object.fromEntries
unfoldable pub from_entries : List (Str × Str) → Headers
unfolding assign
from_entries entries = assign [] entries
