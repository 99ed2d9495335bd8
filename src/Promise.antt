-- ===== src/Promise.antt =====
-- Promises, as js/src/utilities.ts makes them by `newPromiseTriplet`: a promise is a number, and a
-- table says how those that are settled were settled. Only the first call of `resolve` or `reject`
-- counts, as the language has it.
use interop.Base.{
  ℕ, suc, ◌≡◌, refl, Option, none, some, List, [], ◌∷◌, ◌==◌, if◌then◌else◌, arith, Option-cases,
  inl, inr,
}

pub data Outcome (A E : Type 0) : Type 0 where
  fulfilled : A → Outcome A E
  rejected : E → Outcome A E

module _ {A E : Type 0} where
  unfoldable pub outcome_of : ℕ → List (ℕ × Outcome A E) → Option (Outcome A E)
  outcome_of p [] = none
  outcome_of p ((q, o) ∷ table) = if q == p then some o else outcome_of p table

  pub settle : ℕ → Outcome A E → List (ℕ × Outcome A E) → List (ℕ × Outcome A E)
  settle p o table = elim (outcome_of p table) [ none ↦ (p, o) ∷ table | some _ ↦ table ]

  abbrev pub first_of_two : Option (Outcome A E) → Outcome A E → Outcome A E
  first_of_two none o = o
  first_of_two (some o) _ = o

  pub outcome_of-settle :
      (p q : ℕ) (o : Outcome A E) (table : List (ℕ × Outcome A E))
      → outcome_of q (settle p o table)
        ≡ (if p == q then some (first_of_two (outcome_of p table) o) else outcome_of q table)
  unfolding settle outcome_of
  outcome_of-settle p q o table = elim (Option-cases (outcome_of p table)) [
    | inl fresh ↦ rw (fresh, settle) refl
    | inr (first, old) ↦ rw (old, settle) (ground arith)
  ]

-- The promises are made in the order of their numbers.
abbrev pub new_promise : ℕ → ℕ × ℕ
new_promise next = (next, suc next)

module _ {A E : Type 0} where
  -- The first outcome stays.
  pub settle-keeps :
      (p q : ℕ) (r o : Outcome A E) (outcomes : List (ℕ × Outcome A E))
      → outcome_of p outcomes ≡ some r
      → outcome_of p (settle q o outcomes) ≡ some r
  settle-keeps p q r o outcomes e = ground (arith, outcome_of-settle q p o outcomes)
