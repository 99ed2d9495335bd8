-- ===== src/Text/Lines.antt =====
-- Lines: what `split(/\r?\n/)`, `trim` and `indexOf` do to a text that was put together from lines.
use interop.Base.{ℕ, ◌≡◌, ◌≢◌, refl, ap, ◌∙◌, true, false, [], ◌∷◌, ◌++◌, Str, All, ◌==◌, arith}
use interop.Text.{is_space, trim_end, cons_trimmed, split_lines, starts_with}

abbrev pub NoLineFeed : Str → Type 0
NoLineFeed = All (λ c. (c == 10) ≡ false)

-- A text ends with a character that is neither white space nor a line break.
pub data EndsInk : Str → Type 0 where
  last : {s : Str} (init : Str) (c : ℕ) → is_space c ≡ false → s ≡ init ++ c ∷ [] → EndsInk s

cons_trimmed-tail : (c d : ℕ) (s t : Str) → cons_trimmed c t ≡ c ∷ d ∷ s → t ≡ d ∷ s
cons_trimmed-tail c d s [] e = ground arith
cons_trimmed-tail c d s (x ∷ t) e = cc

cons-EndsInk : (c : ℕ) (s : Str) → EndsInk s → EndsInk (c ∷ s)
cons-EndsInk c s (last init d h e) = last (c ∷ init) d h (ap (◌∷◌ c) e)

pub trim_end-EndsInk : (s : Str) → s ≢ [] → trim_end s ≡ s → EndsInk s
unfolding trim_end
trim_end-EndsInk [] h e = absurd (h refl)
trim_end-EndsInk (c ∷ []) h e = last [] c (ground arith) refl
trim_end-EndsInk (c ∷ d ∷ s) h e =
    cons-EndsInk c (d ∷ s)
      (trim_end-EndsInk (d ∷ s) (λ n. cc) (cons_trimmed-tail c d s (trim_end (d ∷ s)) e))

pub append-EndsInk : (xs ys : Str) → EndsInk ys → EndsInk (xs ++ ys)
append-EndsInk [] ys h = h
append-EndsInk (x ∷ xs) ys h = cons-EndsInk x (xs ++ ys) (append-EndsInk xs ys h)

cons_trimmed-append : (x : ℕ) (xs ys : Str) → ys ≢ [] → cons_trimmed x (xs ++ ys) ≡ x ∷ (xs ++ ys)
cons_trimmed-append x [] [] h = absurd (h refl)
cons_trimmed-append x [] (y ∷ ys) h = refl
cons_trimmed-append x (z ∷ xs) ys h = refl

pub trim_end-append : (xs ys : Str) → trim_end ys ≢ [] → trim_end (xs ++ ys) ≡ xs ++ trim_end ys
unfolding trim_end
trim_end-append [] ys h = refl
trim_end-append (x ∷ xs) ys h =
    ap (cons_trimmed x) (trim_end-append xs ys h) ∙ cons_trimmed-append x xs (trim_end ys) h

trim_end-spaces : (ys : Str) → All (λ c. is_space c ≡ true) ys → trim_end ys ≡ []
unfolding trim_end
trim_end-spaces [] h = refl
trim_end-spaces (y ∷ ys) (h, hs) = rw (trim_end-spaces ys hs) (rw h refl)

pub trim_end-append_spaces :
    (xs ys : Str) → All (λ c. is_space c ≡ true) ys → trim_end (xs ++ ys) ≡ trim_end xs
unfolding trim_end
trim_end-append_spaces [] ys h = trim_end-spaces ys h
trim_end-append_spaces (x ∷ xs) ys h = ap (cons_trimmed x) (trim_end-append_spaces xs ys h)

starts_with-NoLineFeed : (s : Str) → NoLineFeed s → starts_with (λ d. d == 10) s ≡ false
starts_with-NoLineFeed [] h = refl
starts_with-NoLineFeed (c ∷ s) h = h.0

pub split_lines_one : (s : Str) → NoLineFeed s → split_lines s ≡ s ∷ []
unfolding split_lines
split_lines_one [] h = refl
split_lines_one (c ∷ s) h =
    rw (split_lines_one s h.1) (ground (arith, starts_with-NoLineFeed s h.1))

starts_with-append :
    (s t : Str) (c : ℕ)
    → NoLineFeed (s ++ c ∷ [])
    → starts_with (λ d. d == 10) ((s ++ c ∷ []) ++ t) ≡ false
starts_with-append [] t c h = h.0
starts_with-append (d ∷ s) t c h = h.0

-- A line that does not end with a carriage return is split off as it is.
pub split_lines-append :
    (s t : Str) (c : ℕ)
    → NoLineFeed (s ++ c ∷ [])
    → (c == 13) ≡ false
    → split_lines ((s ++ c ∷ []) ++ 10 ∷ t) ≡ (s ++ c ∷ []) ∷ split_lines t
unfolding split_lines
split_lines-append [] t c h r = ground arith
split_lines-append (d ∷ s) t c h r =
    rw (split_lines-append s t c h.1 r) (ground (arith, starts_with-append s (10 ∷ t) c h.1))
