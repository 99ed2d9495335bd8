-- ===== src/Headers/Entries.antt =====
-- What an assignment to a header object keeps of its entries.
use interop.Base.{
  ◌≡◌, ◌≢◌, refl, ◌∙◌, false, [], ◌∷◌, Str, All, str_eq, str_eq_iff, none, arith, inl, inr,
  Bool-cases,
}
use interop.Headers.{Headers, has, array_index, comes_before, insert_new, replace, set}
use interop.Headers.Laws.{IsPlain}

insert_new-All {ℓ} :
    (P : Str × Str → Type ℓ) (key value : Str) (h : Headers)
    → P (key, value)
    → All P h
    → All P (insert_new key value h)
unfolding insert_new
insert_new-All P key value [] p a = (p, tt)
insert_new-All P key value ((k, v) ∷ h) p (q, a) =
    elim (Bool-cases (comes_before (array_index key) (array_index k))) [
      | inl here ↦ rw here (p, (q, a))
      | inr later ↦ rw later (q, insert_new-All P key value h p a)
    ]

replace-All {ℓ} :
    (P : Str × Str → Type ℓ) (key value : Str) (h : Headers)
    → P (key, value)
    → All P h
    → All P (replace key value h)
unfolding replace
replace-All P key value [] p a = tt
replace-All P key value ((k, v) ∷ h) p (q, a) = elim (Bool-cases (str_eq k key)) [
  | inl this ↦ rw (this, (str_eq_iff k key).0 this) (p, a)
  | inr other ↦ rw other (q, replace-All P key value h p a)
]

-- What holds of all entries holds of them after an assignment, if it holds of the new entry.
pub set-All {ℓ} :
    (P : Str × Str → Type ℓ) (key value : Str) (h : Headers)
    → P (key, value)
    → All P h
    → All P (set key value h)
unfolding set
set-All P key value h p a = elim (Bool-cases (has key h)) [
  | inl old ↦ rw (old, set) (replace-All P key value h p a)
  | inr new ↦ rw (new, set) (insert_new-All P key value h p a)
]

has-insert_new :
    (key key' value : Str) (h : Headers)
    → str_eq key key' ≡ false
    → has key' (insert_new key value h) ≡ has key' h
unfolding has insert_new
has-insert_new key key' value [] e = rw e refl
has-insert_new key key' value ((k, v) ∷ h) e = ground (arith, has-insert_new key key' value h e)

has-replace : (key key' value : Str) (h : Headers) → has key' (replace key value h) ≡ has key' h
unfolding has replace
has-replace key key' value [] = refl
has-replace key key' value ((k, v) ∷ h) = ground (arith, has-replace key key' value h)

insert_new-IsPlain :
    (key value : Str) (h : Headers)
    → array_index key ≡ none
    → has key h ≡ false
    → IsPlain h
    → IsPlain (insert_new key value h)
unfolding insert_new has comes_before
insert_new-IsPlain key value [] i n p = (i, n, tt)
insert_new-IsPlain key value ((k, v) ∷ h) i n (j, new, p) =
    let other : str_eq k key ≡ false = ground arith in
    let rest : has key h ≡ false = ground arith in
    rw i (
      j,
      has-insert_new key k value h (ground (arith, str_eq_iff k key, str_eq_iff key k)) ∙ new,
      insert_new-IsPlain key value h i rest p,
    )

replace-IsPlain : (key value : Str) (h : Headers) → IsPlain h → IsPlain (replace key value h)
unfolding replace
replace-IsPlain key value [] p = tt
replace-IsPlain key value ((k, v) ∷ h) (j, new, p) = elim (Bool-cases (str_eq k key)) [
  | inl this ↦ rw this (j, new, p)
  | inr other ↦ rw other (j, has-replace key k value h ∙ new, replace-IsPlain key value h p)
]

-- A plain object is plain after an assignment to a key that is no array index.
pub set-IsPlain :
    (key value : Str) (h : Headers) → array_index key ≡ none → IsPlain h → IsPlain (set key value h)
unfolding set
set-IsPlain key value h i p = elim (Bool-cases (has key h)) [
  | inl old ↦ rw (old, set) (replace-IsPlain key value h p)
  | inr new ↦ rw (new, set) (insert_new-IsPlain key value h i new p)
]

insert_new-ne : (key value : Str) (h : Headers) → insert_new key value h ≢ []
unfolding insert_new
insert_new-ne key value [] e = cc
insert_new-ne key value (f ∷ h) e = ground arith

-- An object has an entry after an assignment.
pub set-ne : (key value : Str) (h : Headers) → set key value h ≢ []
unfolding set
set-ne key value [] e = unfold has in insert_new-ne key value [] e
set-ne key value (f ∷ h) e = unfold replace in ground (arith, insert_new-ne key value (f ∷ h))
