-- ===== src/Golib/Sort.antt =====
-- `sort.SliceStable`: an insertion from the right, which puts an element in front of those that
-- are not less than it. Every stable sort by an order of this kind gives the same list.
pub mod Stable
use go_http_benchmark.Prelude.{ℕ, Bool, true, false, not, ◌&&◌, List, [], ◌∷◌, if◌then◌else◌}

module _ {ℓ} {A : Type ℓ} (less : A → A → Bool) where
  unfoldable pub insert : A → List A → List A
  insert x [] = x ∷ []
  insert x (y ∷ ys) = elim (less y x) [ true ↦ y ∷ insert x ys | false ↦ x ∷ y ∷ ys ]

  unfoldable pub slice_stable : List A → List A
  unfolding insert
  slice_stable [] = []
  slice_stable (x ∷ xs) = insert x (slice_stable xs)

  -- Neither is less than the other.
  abbrev pub ties : A → A → Bool
  ties a b = not (less a b) && not (less b a)

abbrev pub select {ℓ} : {A : Type ℓ} → (A → Bool) → List A → List A
select p [] = []
select p (x ∷ xs) = if p x then x ∷ select p xs else select p xs
