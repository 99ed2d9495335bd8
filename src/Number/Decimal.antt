-- ===== src/Number/Decimal.antt =====
-- Reading a number as it was written.
use Prim.Native.Nat.{◌/◌, ◌%◌}
use interop.Base.{
  ℕ, zero, suc, ◌+◌, ◌*◌, ◌≤◌, ◌<◌, ◌≡◌, refl, ap, ◌∙◌, false, [], ◌∷◌, Str, All, ltb, some, pos,
  arith, Bool-cases, inl, inr,
}
use interop.Text.{is_space, trim_start}
use interop.Number.{
  decimal, digits_onto, parse_int, leading_digits, more_digits, digit_of, unsigned, signed,
  map_number,
}

abbrev pub IsDigit : ℕ → Type 0
IsDigit c = (b'0' ≤ c) × (c ≤ b'9')

digit_of_digit : (d : ℕ) → d < 10 → digit_of 10 (d + b'0') ≡ some d
unfolding digit_of
digit_of_digit d h = ground arith

digits_onto-IsDigit : (fuel n : ℕ) (s : Str) → All IsDigit s → All IsDigit (digits_onto fuel n s)
unfolding digits_onto
digits_onto-IsDigit zero n s h = h
digits_onto-IsDigit (suc fuel) n s h =
    let now : All IsDigit ((n % 10 + b'0') ∷ s) = ((omega arith, omega arith), h) in
    elim (Bool-cases (ltb n 10)) [
      | inl last ↦ rw (last, digits_onto) now
      | inr more ↦ rw (more, digits_onto) (digits_onto-IsDigit fuel (n / 10) _ now)
    ]

more_digits-digit :
    (a d : ℕ) (s : Str) → d < 10 → more_digits 10 a ((d + b'0') ∷ s) ≡ more_digits 10 (a * 10 + d) s
unfolding more_digits
more_digits-digit a d s h = rw (digit_of_digit d h, more_digits) refl

leading_digits-digit :
    (d : ℕ) (s : Str) → d < 10 → leading_digits 10 ((d + b'0') ∷ s) ≡ some (more_digits 10 d s)
unfolding leading_digits
leading_digits-digit d s h = rw (digit_of_digit d h, leading_digits) refl

leading_digits-onto :
    (fuel n : ℕ) (s : Str)
    → n < fuel
    → leading_digits 10 (digits_onto fuel n s) ≡ some (more_digits 10 n s)
unfolding digits_onto
leading_digits-onto zero n s h = absurd (omega arith)
leading_digits-onto (suc fuel) n s h = elim (Bool-cases (ltb n 10)) [
  | inl last ↦
      let whole : n % 10 ≡ n = ground arith in
      rw (last, digits_onto)
        (leading_digits-digit (n % 10) s (omega arith) ∙ ap (λ m. some (more_digits 10 m s)) whole)
  | inr more ↦
      let whole : n / 10 * 10 + n % 10 ≡ n = omega arith in
      rw (more, digits_onto)
        (leading_digits-onto fuel (n / 10) _ (ground arith)
          ∙ ap some (more_digits-digit (n / 10) (n % 10) s (omega arith))
          ∙ ap (λ m. some (more_digits 10 m s)) whole)
]

digit-not-space : (c : ℕ) → IsDigit c → is_space c ≡ false
unfolding is_space
digit-not-space c h = ground arith

unsigned-digits : (s : Str) → All IsDigit s → unsigned s ≡ leading_digits 10 s
unfolding unsigned
unsigned-digits [] h = unfold leading_digits in refl
unsigned-digits (c ∷ []) h = refl
unsigned-digits (c ∷ d ∷ s) (_, (h, _)) = ground arith

signed-digits : (s : Str) → All IsDigit s → signed s ≡ map_number pos (unsigned s)
unfolding signed
signed-digits [] h = unfold unsigned in refl
signed-digits (c ∷ s) (h, _) = ground arith

parse_int_digits : (s : Str) → All IsDigit s → parse_int s ≡ map_number pos (leading_digits 10 s)
unfolding parse_int
parse_int_digits s h =
    ap signed (trim_start_digits s h)
    ∙ signed-digits s h
    ∙ ap (map_number pos) (unsigned-digits s h)
  where
    trim_start_digits : (s : Str) → All IsDigit s → trim_start s ≡ s
    trim_start_digits [] h = unfold trim_start in refl
    trim_start_digits (c ∷ s) h = unfold trim_start in rw (digit-not-space c h.0) refl

-- parseInt reads a number back from its decimal text.
pub parse_int-decimal : (n : ℕ) → parse_int (decimal n) ≡ some (pos n)
unfolding decimal more_digits
parse_int-decimal n =
    parse_int_digits (decimal n) (digits_onto-IsDigit (suc n) n [] tt)
    ∙ ap (map_number pos) (leading_digits-onto (suc n) n [] (omega arith))

pub decimal-IsDigit : (n : ℕ) → All IsDigit (decimal n)
unfolding decimal
decimal-IsDigit n = digits_onto-IsDigit (suc n) n [] tt
