-- ===== src/Prototype/Keys.antt =====
-- The names of Object.prototype are no canonical keys.
use interop.Base.{
  ◌≡◌, refl, sym, ap, ◌∙◌, true, false, List, [], ◌∷◌, Str, str_eq, str_eq_iff, All, arith,
  Bool-cases, inl, inr, subst,
}
use mathlib.Core.Bool.{true≢false}
use interop.Text.{Platform, canonicalize_key}
use interop.Text.Canonical.{ascii_only, all_ascii, canonicalize_key-ascii}
use interop.Text.Keys.{canonicalize_key-canonicalize_key}
use interop.Prototype.{inherited_names, is_one_of}

-- What holds of all names holds of one of them.
is_one_of-All :
    (P : Str → Type 0) (name : Str) (names : List Str)
    → is_one_of name names ≡ true
    → All P names
    → P name
unfolding is_one_of
is_one_of-All P name [] h a = absurd (cc h)
is_one_of-All P name (n ∷ names) h (p, ps) = elim (Bool-cases (str_eq n name)) [
  | inl same ↦ subst P ((str_eq_iff n name).0 same) p
  | inr other ↦ is_one_of-All P name names (ground arith) ps
]

abbrev NotCanonical : Str → Type 0
NotCanonical name =
    (all_ascii name ≡ true) × (str_eq (canonicalize_key ascii_only name) name ≡ false)

inherited_names-NotCanonical : All NotCanonical inherited_names
unfolding canonicalize_key str_eq
inherited_names-NotCanonical = (
  (refl, refl),
  (
    (refl, refl),
    (
      (refl, refl),
      (
        (refl, refl),
        (
          (refl, refl),
          (
            (refl, refl),
            (
              (refl, refl),
              ((refl, refl), ((refl, refl), ((refl, refl), ((refl, refl), ((refl, refl), tt))))),
            ),
          ),
        ),
      ),
    ),
  ),
)

module _ (platform : Platform) where
  pub inherited-ne-canonical :
      (name : Str)
      → is_one_of name inherited_names ≡ true
      → str_eq (canonicalize_key platform name) name ≡ false
  inherited-ne-canonical name h =
      let (a, n) = is_one_of-All NotCanonical name inherited_names h inherited_names-NotCanonical in
      ap (λ k. str_eq k name) (canonicalize_key-ascii platform name a) ∙ n

  pub canonicalize_key-inherited :
      (key : Str)
      → all_ascii key ≡ true
      → is_one_of (canonicalize_key platform key) inherited_names ≡ false
  canonicalize_key-inherited key a =
      elim (Bool-cases (is_one_of (canonicalize_key platform key) inherited_names)) [
        | inl inherited ↦ absurd (
            true≢false (
              sym ((str_eq_iff _ _).1 (canonicalize_key-canonicalize_key platform key a))
              ∙ inherited-ne-canonical (canonicalize_key platform key) inherited))
        | inr own ↦ own
      ]
