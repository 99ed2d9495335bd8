-- ===== src/Base/Perms.antt =====
-- Lists up to order.
use mathlib.Core.Path.{◌≡◌, refl, ap}
use mathlib.Core.List.{List, [], ◌∷◌, ◌++◌, Perm, perm_middle, perm_append_singleton}
use mathlib.Core.List.Perm

pub append-shift {ℓ} :
    {A : Type ℓ} (xs ys zs : List A) (x : A) → (xs ++ (ys ++ x ∷ [])) ++ zs ≡ (xs ++ ys) ++ x ∷ zs
append-shift [] [] zs x = refl
append-shift [] (y ∷ ys) zs x = ap (◌∷◌ y) (append-shift [] ys zs x)
append-shift (w ∷ xs) ys zs x = ap (◌∷◌ w) (append-shift xs ys zs x)

-- One more at the end is one more in the middle.
pub Perm-snoc {ℓ} :
    {A : Type ℓ} (xs ys zs : List A) (x : A)
    → Perm xs (ys ++ zs)
    → Perm (xs ++ x ∷ []) (ys ++ x ∷ zs)
Perm-snoc xs ys zs x p =
    Perm.trans (perm_append_singleton x xs)
      (Perm.trans (Perm.cons x p) (Perm.symm (perm_middle ys zs)))
