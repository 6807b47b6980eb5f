-- ===== src/Golib/Strconv/Printed.antt =====
-- A printed number is read back.
use go_http_benchmark.Prelude.{
  ℕ, zero, suc, length, ◌^◌, All, ◌+◌, ◌*◌, ◌/◌, ◌%◌, ◌≤◌, ◌<◌, [], ◌∷◌, ◌≡◌, ◌≢◌, refl, ◌∙◌, some,
  inl, inr, arith, Bytes, ltb, Bool-cases, ltb→lt, ltb→le, pos,
}
use native.Mathlib.Nat.{pow-suc, zero-mul, zero-add, div-add-mod', div-lt_self, mod-lt}
use go_http_benchmark.Golib.Strconv.{
  digit_value, digit_char, parse_digits, print_digits, parse_int, atoi, itoa, hex, int_limit,
}

digit_value-digit_char :
    (base d : ℕ) → base ≤ 36 → d < base → digit_value base (digit_char d) ≡ some d
unfolding digit_value digit_char
digit_value-digit_char base d small h = ground arith

parse_digits-cons :
    (base c : ℕ) (s : Bytes) (n : ℕ) {d : ℕ}
    → digit_value base c ≡ some d
    → parse_digits base (c ∷ s) n ≡ parse_digits base s (n * base + d)
unfolding parse_digits
parse_digits-cons base c s n h = ground arith

print_digits_last :
    (base fuel n : ℕ) (out : Bytes)
    → n < base
    → print_digits base (suc fuel) n out ≡ digit_char n ∷ out
unfolding print_digits
print_digits_last base fuel n out h = ground arith

print_digits_more :
    (base fuel n : ℕ) (out : Bytes)
    → base ≤ n
    → print_digits base (suc fuel) n out
      ≡ print_digits base fuel (n / base) (digit_char (n % base) ∷ out)
unfolding print_digits
print_digits_more base fuel n out h = ground arith

module _ (base : ℕ) (two : 1 < base) (small : base ≤ 36) where
  parse_digits-print_digits :
      (fuel n : ℕ) (out : Bytes)
      → n < fuel
      → parse_digits base (print_digits base fuel n out) 0 ≡ parse_digits base out n
  parse_digits-print_digits zero n out f = elim f [ ]
  parse_digits-print_digits (suc fuel) n out f = elim (Bool-cases (ltb n base)) [
    | inl one ↦
        let h = ltb→lt n base one in
        rw (print_digits_last base fuel n out h) (
          parse_digits-cons base _ out 0 (digit_value-digit_char base n small h)
          ∙ rw zero-mul (rw zero-add))
    | inr more ↦
        let h = ltb→le n base more in
        let low = mod-lt n {m = base} (omega arith) in
        let less = div-lt_self {n = n} {k = base} (omega arith) two in
        rw (print_digits_more base fuel n out h) (
          parse_digits-print_digits fuel (n / base) _ (omega arith)
          ∙ parse_digits-cons base _ out (n / base) (digit_value-digit_char base _ small low)
          ∙ rw (div-add-mod' n base))
  ]

print_digits-ne-nil : (base fuel n c : ℕ) (out : Bytes) → print_digits base fuel n (c ∷ out) ≢ []
unfolding print_digits
print_digits-ne-nil base zero n c out = cc
print_digits-ne-nil base (suc fuel) n c out =
    ground (arith, print_digits-ne-nil base fuel (n / base) (digit_char (n % base)) (c ∷ out))

print_digits-suc-ne-nil : (base fuel n : ℕ) → print_digits base (suc fuel) n [] ≢ []
unfolding print_digits
print_digits-suc-ne-nil base fuel n =
    ground (arith, print_digits-ne-nil base fuel (n / base) (digit_char (n % base)) [])

-- A text of digits has no sign.
parse_int-eq_some :
    (base : ℕ) (s : Bytes) {n : ℕ}
    → s ≢ []
    → parse_digits base s 0 ≡ some n
    → n < int_limit
    → parse_int base s ≡ some (pos n)
unfolding parse_int
parse_int-eq_some base [] ne h lt = absurd (ne refl)
parse_int-eq_some base (c ∷ s) ne h lt = ground arith

-- `Atoi` reads what `Itoa` prints.
pub atoi-itoa : (n : ℕ) → n < int_limit → atoi (itoa n) ≡ some (pos n)
unfolding atoi itoa
atoi-itoa n h =
    parse_int-eq_some 10 _ (print_digits-suc-ne-nil 10 n n)
      (parse_digits-print_digits 10 (omega arith) (omega arith) (suc n) n [] (omega arith)) h

-- `ParseInt` in base 16 reads what `FormatInt` prints in base 16.
pub parse_int-hex : (n : ℕ) → n < int_limit → parse_int 16 (hex n) ≡ some (pos n)
unfolding hex parse_digits
parse_int-hex n h =
    parse_int-eq_some 16 _ (print_digits-suc-ne-nil 16 n n)
      (parse_digits-print_digits 16 (omega arith) (omega arith) (suc n) n [] (omega arith)) h

-- The printed bytes, one by one.
print_digits-All :
    (P : ℕ → Type 0) (base fuel n : ℕ) (out : Bytes)
    → 1 < base
    → ((d : ℕ) → d < base → P (digit_char d))
    → n < fuel
    → All P out
    → All P (print_digits base fuel n out)
print_digits-All P base zero n out two each f h = elim f [ ]
print_digits-All P base (suc fuel) n out two each f h = elim (Bool-cases (ltb n base)) [
  | inl one ↦ let lt = ltb→lt n base one in rw (print_digits_last base fuel n out lt) (each n lt, h)
  | inr more ↦
      let le = ltb→le n base more in
      let less = div-lt_self {n = n} {k = base} (omega arith) two in
      rw (print_digits_more base fuel n out le) (
        print_digits-All P base fuel (n / base) _ two each (omega arith)
          (each (n % base) (mod-lt n {m = base} (omega arith)), h))
]

-- A digit is a printing byte other than a mark of punctuation that the protocol looks for.
abbrev pub IsPlain : ℕ → Type 0
IsPlain c = (b'0' ≤ c) × (c ≤ b'z') × (c ≢ b';') × (c ≢ b':')

digit_char-IsPlain : (d : ℕ) → d < 36 → IsPlain (digit_char d)
unfolding digit_char
digit_char-IsPlain d h = ground arith

pub itoa-IsPlain : (n : ℕ) → All IsPlain (itoa n)
unfolding itoa
itoa-IsPlain n =
    print_digits-All IsPlain 10 (suc n) n [] (omega arith)
      (λ d h. digit_char-IsPlain d (omega arith)) (omega arith) tt

pub hex-IsPlain : (n : ℕ) → All IsPlain (hex n)
unfolding hex
hex-IsPlain n =
    print_digits-All IsPlain 16 (suc n) n [] (omega arith)
      (λ d h. digit_char-IsPlain d (omega arith)) (omega arith) tt

pub itoa-ne-nil : (n : ℕ) → itoa n ≢ []
unfolding itoa
itoa-ne-nil n = print_digits-suc-ne-nil 10 n n

pub hex-ne-nil : (n : ℕ) → hex n ≢ []
unfolding hex
hex-ne-nil n = print_digits-suc-ne-nil 16 n n

length-print_digits :
    (k fuel n : ℕ) (out : Bytes)
    → n < 10 ^ suc k
    → n < fuel
    → length (print_digits 10 fuel n out) ≤ suc k + length out
length-print_digits k zero n out h f = elim f [ ]
length-print_digits zero (suc fuel) n out h f =
    rw (print_digits_last 10 fuel n out (omega arith)) (omega arith)
length-print_digits (suc k) (suc fuel) n out h f = elim (Bool-cases (ltb n 10)) [
  | inl one ↦ rw (print_digits_last 10 fuel n out (ltb→lt n 10 one)) (omega arith)
  | inr more ↦
      let le = ltb→le n 10 more in
      rw (print_digits_more 10 fuel n out le) (
        omega (
          arith,
          pow-suc 10 (suc k),
          length-print_digits k fuel (n / 10) (digit_char (n % 10) ∷ out)
              (omega (arith, pow-suc 10 (suc k))) (omega arith),
        ))
]

-- A number below 10^8 takes eight digits at most.
pub length-itoa : (n : ℕ) → n < 10 ^ 8 → length (itoa n) ≤ 8
unfolding itoa
length-itoa n h = omega (arith, length-print_digits 7 (suc n) n [] h (omega arith))

pub length-itoa_small : (n : ℕ) → n < 100 → length (itoa n) ≤ 2
unfolding itoa
length-itoa_small n h = omega (arith, length-print_digits 1 (suc n) n [] h (omega arith))
