-- ===== src/Golib/Text/Trim.antt =====
-- Trimming leaves a text alone that has no white space at its ends, and takes it off around one.
use go_http_benchmark.Prelude.{
  ℕ, ◌≡◌, refl, ap, ◌∙◌, Bool, true, false, [], ◌∷◌, ◌++◌, arith, Bytes, All,
}
use go_http_benchmark.Golib.Text.{trim_left, trim_right, trim}

module _ (p : ℕ → Bool) where
  trim_left_keep : (s : Bytes) → All (λ c. p c ≡ false) s → trim_left p s ≡ s
  unfolding trim_left
  trim_left_keep [] h = refl
  trim_left_keep (c ∷ s) h = ground arith

  trim_right_keep : (s : Bytes) → All (λ c. p c ≡ false) s → trim_right p s ≡ s
  unfolding trim_right
  trim_right_keep [] h = refl
  trim_right_keep (c ∷ s) (hc, hs) = ground (arith, trim_right_keep s hs)

  -- A text that has none of the bytes is left as it is.
  pub trim_keep : (s : Bytes) → All (λ c. p c ≡ false) s → trim p s ≡ s
  unfolding trim
  trim_keep s h = ap (trim_right p) (trim_left_keep s h) ∙ trim_right_keep s h

  trim_left_drop :
      (pre s : Bytes) → All (λ c. p c ≡ true) pre → trim_left p (pre ++ s) ≡ trim_left p s
  unfolding trim_left
  trim_left_drop [] s h = refl
  trim_left_drop (c ∷ pre) s (hc, hs) = ground (arith, trim_left_drop pre s hs)

  -- So is what stands behind bytes that are trimmed.
  pub trim_drop : (pre s : Bytes) → All (λ c. p c ≡ true) pre → trim p (pre ++ s) ≡ trim p s
  unfolding trim
  trim_drop pre s h = ap (trim_right p) (trim_left_drop pre s h)

  trim_right_behind : (s : Bytes) (c : ℕ) → p c ≡ true → trim_right p (s ++ c ∷ []) ≡ trim_right p s
  unfolding trim_right
  trim_right_behind [] c h = rw h refl
  trim_right_behind (d ∷ s) c h = rw (trim_right_behind s c h) refl

  -- And what stands between two bytes that are trimmed.
  pub trim_around :
      (c : ℕ) (s : Bytes) (d : ℕ)
      → p c ≡ true
      → All (λ b. p b ≡ false) s
      → p d ≡ true
      → trim p (c ∷ (s ++ d ∷ [])) ≡ s
  unfolding trim trim_left trim_right
  trim_around c [] d h k e = ground arith
  trim_around c (b ∷ s) d h (k, ks) e =
      ground (arith, trim_right_behind s d e, trim_right_keep s ks)
