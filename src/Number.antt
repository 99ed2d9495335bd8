-- ===== src/Number.antt =====
-- JavaScript's `parseInt` of a text with no radix, where `none` is NaN, and `toString` of a number
-- that is not negative. A number is not rounded to 53 bits here.
pub mod Decimal
use Prim.Native.Nat.{◌/◌, ◌%◌}
use interop.Base.{
  ℕ, zero, suc, ◌+◌, ◌-◌, ◌*◌, Bool, ◌&&◌, ◌||◌, List, [], ◌∷◌, ◌++◌, Str, leb, ltb, ◌==◌,
  if◌then◌else◌, Option, none, some, ℤ, pos, negsuc,
}
use interop.Text.{trim_start}

digit_value : ℕ → Option ℕ
digit_value c =
    if leb b'0' c && leb c b'9'
    then some (c - b'0')
    else if leb b'a' c && leb c b'z'
    then some (c - b'a' + 10)
    else if leb b'A' c && leb c b'Z'
    then some (c - b'A' + 10)
    else none

-- A digit of the radix.
unfoldable pub digit_of : ℕ → ℕ → Option ℕ
unfolding digit_value
digit_of radix c = elim (digit_value c) [
  | none ↦ none
  | some d ↦ if ltb d radix then some d else none
]

-- The digits up to the first other character.
unfoldable pub more_digits : ℕ → ℕ → Str → ℕ
more_digits radix n [] = n
more_digits radix n (c ∷ s) = elim (digit_of radix c) [
  | none ↦ n
  | some d ↦ more_digits radix (n * radix + d) s
]

unfoldable pub leading_digits : ℕ → Str → Option ℕ
unfolding more_digits digit_of
leading_digits radix [] = none
leading_digits radix (c ∷ s) = elim (digit_of radix c) [
  | none ↦ none
  | some d ↦ some (more_digits radix d s)
]

-- `0x` makes the radix 16.
unfoldable pub unsigned : Str → Option ℕ
unsigned [] = none
unsigned (c ∷ []) = leading_digits 10 (c ∷ [])
unsigned (c ∷ x ∷ s) =
    if c == b'0' && (x == b'x' || x == b'X')
    then leading_digits 16 s
    else leading_digits 10 (c ∷ x ∷ s)

unfoldable pub negate : ℕ → ℤ
negate zero = pos 0
negate (suc n) = negsuc n

abbrev pub map_number : (ℕ → ℤ) → Option ℕ → Option ℤ
map_number f none = none
map_number f (some n) = some (f n)

unfoldable pub signed : Str → Option ℤ
signed [] = none
signed (c ∷ s) =
    if c == b'-'
    then map_number negate (unsigned s)
    else if c == b'+'
    then map_number pos (unsigned s)
    else map_number pos (unsigned (c ∷ s))

unfoldable pub parse_int : Str → Option ℤ
parse_int s = signed (trim_start s)

-- The last digit, behind those of the quotient. Its fuel is the number itself.
unfoldable pub digits_onto : ℕ → ℕ → Str → Str
digits_onto zero n s = s
digits_onto (suc fuel) n s =
    let d = n % 10 + b'0' in
    let rest = digits_onto fuel (n / 10) (d ∷ s) in if ltb n 10 then d ∷ s else rest

unfoldable pub decimal : ℕ → Str
unfolding digits_onto
decimal n = digits_onto (suc n) n []
