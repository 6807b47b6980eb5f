-- ===== src/Prelude/Permute.antt =====
-- Permutations of a list.
use mathlib.Core.List.{List, [], ◌∷◌, ◌++◌, Perm}
use mathlib.Core.List.Perm

module _ {ℓ} {A : Type ℓ} where
  -- An element in the middle, moved to the front.
  pub perm_front : (c : A) (xs ys : List A) → Perm (xs ++ (c ∷ ys)) (c ∷ (xs ++ ys))
  perm_front c [] ys = Perm.refl (c ∷ ys)
  perm_front c (x ∷ xs) ys =
      Perm.trans (Perm.cons x (perm_front c xs ys)) (Perm.swap c x (xs ++ ys))

  pub perm_keep : (xs : List A) {ys zs : List A} → Perm ys zs → Perm (xs ++ ys) (xs ++ zs)
  perm_keep [] p = p
  perm_keep (x ∷ xs) p = Perm.cons x (perm_keep xs p)
