-- ===== src/Golib/Sort/Stable.antt =====
-- The sorted list is in order, has the same elements, and keeps the order of those that tie.
use go_http_benchmark.Prelude.{
  Bool, true, false, List, [], ◌∷◌, ◌≡◌, refl, ◌∙◌, arith, All, Bool-cases, inl, inr,
}
use mathlib.Core.List.{Perm}
use mathlib.Core.List.Perm
use go_http_benchmark.Golib.Sort.{insert, slice_stable, ties, select}

-- No element is less than one in front of it.
abbrev pub IsInOrder {ℓ} : {A : Type ℓ} → (A → A → Bool) → List A → Type 0
IsInOrder less [] = Unit
IsInOrder less (x ∷ xs) = All (λ y. less y x ≡ false) xs × IsInOrder less xs

-- An order on the values of which `P` holds, in which "not less" is transitive.
pub record IsWeakOrder {ℓ κ} {A : Type ℓ} (less : A → A → Bool) (P : A → Type κ)
    : Type (ℓ ⊔ κ) where
  pub asym : (a b : A) → P a → P b → less a b ≡ true → less b a ≡ false
  pub trans : (a b c : A) → P a → P b → P c → less b a ≡ false → less c b ≡ false → less c a ≡ false

module _ {ℓ} {A : Type ℓ} (less : A → A → Bool) where
  insert_here : (x y : A) (ys : List A) → less y x ≡ false → insert less x (y ∷ ys) ≡ x ∷ y ∷ ys
  unfolding insert
  insert_here x y ys h = rw (h, insert)

  insert_later :
      (x y : A) (ys : List A) → less y x ≡ true → insert less x (y ∷ ys) ≡ y ∷ insert less x ys
  unfolding insert
  insert_later x y ys h = rw (h, insert)

  insert_perm : (x : A) (xs : List A) → Perm (insert less x xs) (x ∷ xs)
  insert_perm x [] = unfold insert in Perm.refl (x ∷ [])
  insert_perm x (y ∷ ys) = elim (Bool-cases (less y x)) [
    | inl e ↦
        rw (insert_later x y ys e) (Perm.trans (Perm.cons y (insert_perm x ys)) (Perm.swap x y ys))
    | inr e ↦ rw (insert_here x y ys e) (Perm.refl (x ∷ y ∷ ys))
  ]

  pub slice_stable_perm : (xs : List A) → Perm (slice_stable less xs) xs
  unfolding slice_stable
  slice_stable_perm [] = Perm.refl []
  slice_stable_perm (x ∷ xs) =
      Perm.trans (insert_perm x (slice_stable less xs)) (Perm.cons x (slice_stable_perm xs))

  insert-All {κ} :
      (P : A → Type κ) (x : A) (xs : List A) → P x → All P xs → All P (insert less x xs)
  insert-All P x [] px h = unfold insert in (px, tt)
  insert-All P x (y ∷ ys) px (py, pys) = elim (Bool-cases (less y x)) [
    | inl e ↦ rw (insert_later x y ys e) (py, insert-All P x ys px pys)
    | inr e ↦ rw (insert_here x y ys e) (px, (py, pys))
  ]

  pub slice_stable-All {κ} :
      (P : A → Type κ) (xs : List A) → All P xs → All P (slice_stable less xs)
  unfolding slice_stable
  slice_stable-All P [] h = tt
  slice_stable-All P (x ∷ xs) (px, h) = insert-All P x _ px (slice_stable-All P xs h)

  module _ {κ} (P : A → Type κ) (w : IsWeakOrder less P) where
    -- What is not less than `y` is not less than `x` where `y` is not.
    below :
        (x y : A) (ys : List A)
        → P x
        → P y
        → All P ys
        → less y x ≡ false
        → All (λ z. less z y ≡ false) ys
        → All (λ z. less z x ≡ false) ys
    below x y [] px py ps h hs = tt
    below x y (z ∷ ys) px py (pz, ps) h (hz, hs) =
        (w.trans x y z px py pz h hz, below x y ys px py ps h hs)

    insert-IsInOrder :
        (x : A) (xs : List A)
        → P x
        → All P xs
        → IsInOrder less xs
        → IsInOrder less (insert less x xs)
    insert-IsInOrder x [] px ps h = unfold insert in (tt, tt)
    insert-IsInOrder x (y ∷ ys) px (py, ps) (hy, hs) = elim (Bool-cases (less y x)) [
      | inl e ↦ rw (insert_later x y ys e) (
        insert-All (λ z. less z y ≡ false) x ys (w.asym y x py px e) hy,
        insert-IsInOrder x ys px ps hs,
      )
      | inr e ↦ rw (insert_here x y ys e) ((e, below x y ys px py ps e hy), (hy, hs))
    ]

    pub slice_stable-IsInOrder : (xs : List A) → All P xs → IsInOrder less (slice_stable less xs)
    unfolding slice_stable
    slice_stable-IsInOrder [] h = tt
    slice_stable-IsInOrder (x ∷ xs) (px, h) =
        insert-IsInOrder x _ px (slice_stable-All P xs h) (slice_stable-IsInOrder xs h)

    -- An element that ties with `r` passes no element that does.
    passes :
        (r x y : A)
        → P r
        → P x
        → P y
        → ties less r x ≡ true
        → less y x ≡ true
        → ties less r y ≡ false
    passes r x y pr px py t h = ground (arith, w.trans x r y px pr py)

    insert-select :
        (r x : A) (xs : List A)
        → P r
        → P x
        → All P xs
        → select (ties less r) (insert less x xs) ≡ select (ties less r) (x ∷ xs)
    insert-select r x [] pr px h = unfold insert in refl
    insert-select r x (y ∷ ys) pr px (py, h) = elim (Bool-cases (less y x)) [
      | inl e ↦
          rw (insert_later x y ys e)
            (ground (arith, insert-select r x ys pr px h, passes r x y pr px py))
      | inr e ↦ rw (insert_here x y ys e) refl
    ]

    pub slice_stable-select :
        (r : A) (xs : List A)
        → P r
        → All P xs
        → select (ties less r) (slice_stable less xs) ≡ select (ties less r) xs
    unfolding slice_stable
    slice_stable-select r [] pr h = refl
    slice_stable-select r (x ∷ xs) pr (px, h) =
        insert-select r x (slice_stable less xs) pr px (slice_stable-All P xs h)
        ∙ ground (arith, slice_stable-select r xs pr h)
