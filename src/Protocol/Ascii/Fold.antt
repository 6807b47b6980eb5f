-- ===== src/Protocol/Ascii/Fold.antt =====
-- `asciiEqualFold` is equality up to the case of the letters.
use go_http_benchmark.Prelude.{
  ℕ, suc, ◌+◌, ◌≤◌, [], ◌∷◌, ◌≡◌, ◌↔◌, ◌⊎◌, refl, ap, true, arith, Bytes, length, ◌==◌, Bool-cases,
  inl, inr, ==→eq, ==_refl,
}
use go_http_benchmark.Protocol.Ascii.{fold_byte, fold_loop, ascii_equal_fold}

-- The capital letter and the small letter of it, in ASCII.
abbrev pub IsPair : ℕ → ℕ → Type 0
IsPair capital small = (65 ≤ capital) × (capital ≤ 90) × (small ≡ capital + 32)

-- The same byte, or the two cases of one letter.
abbrev pub SameLetter : ℕ → ℕ → Type 0
SameLetter c d = (c ≡ d) ⊎ (IsPair c d ⊎ IsPair d c)

-- Texts of one length whose bytes are the same letters, place by place.
abbrev pub SameText : Bytes → Bytes → Type 0
SameText [] [] = Unit
SameText [] (d ∷ s) = ⊥
SameText (c ∷ b) [] = ⊥
SameText (c ∷ b) (d ∷ s) = SameLetter c d × SameText b s

SameLetter-fold_byte : (c d : ℕ) → SameLetter c d → fold_byte c ≡ fold_byte d
SameLetter-fold_byte c d h = ground arith

fold_test : (c d : ℕ) → SameLetter c d → (fold_byte c == fold_byte d) ≡ true
fold_test c d h = rw (SameLetter-fold_byte c d h) (==_refl (fold_byte d))

fold_byte-SameLetter : (c d : ℕ) → fold_byte c ≡ fold_byte d → SameLetter c d
fold_byte-SameLetter c d h = ground arith

fold_loop_iff : (b s : Bytes) → length b ≡ length s → (fold_loop b s ≡ true) ↔ SameText b s
unfolding fold_loop
fold_loop_iff [] [] h = (λ _. tt, λ _. refl)
fold_loop_iff [] (d ∷ s) h = absurd (omega arith)
fold_loop_iff (c ∷ b) [] h = absurd (omega arith)
fold_loop_iff (c ∷ b) (d ∷ s) h =
    let rest = fold_loop_iff b s (omega arith) in
    elim (Bool-cases (fold_byte c == fold_byte d)) [
      | inl e ↦ rw e (λ h. (fold_byte-SameLetter c d (==→eq _ _ e), rest.0 h), λ w. rest.1 w.1)
      | inr e ↦ rw e (λ h. cc h, λ w. cc (e, fold_test c d w.0))
    ]

SameText-length : (b s : Bytes) → SameText b s → length b ≡ length s
SameText-length [] [] h = refl
SameText-length [] (d ∷ s) h = absurd h
SameText-length (c ∷ b) [] h = absurd h
SameText-length (c ∷ b) (d ∷ s) (h, hs) = ap suc (SameText-length b s hs)

same_length : (b s : Bytes) → SameText b s → (length b == length s) ≡ true
same_length b s h = rw (SameText-length b s h) (==_refl (length s))

-- The test passes for exactly the texts of one length that have at each place the same byte, or the
-- two cases of one letter: one of the bytes 65 to 90 in the one, and the byte 32 above it in the
-- other.
pub ascii_equal_fold_iff : (b s : Bytes) → (ascii_equal_fold b s ≡ true) ↔ SameText b s
unfolding ascii_equal_fold
ascii_equal_fold_iff b s = elim (Bool-cases (length b == length s)) [
  | inl e ↦ rw e (fold_loop_iff b s (==→eq _ _ e))
  | inr e ↦ rw e (λ h. cc h, λ h. cc (e, same_length b s h))
]
