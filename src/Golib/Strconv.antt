-- ===== src/Golib/Strconv.antt =====
-- `strconv`: `Itoa` and `AppendInt` print, `Atoi` and `ParseInt` read. A text is read to the end
-- before its value is held against the range of `int64`; that leaves the answer as it is, since
-- either fault is an error.
pub mod Printed
use go_http_benchmark.Prelude.{
  ℕ, zero, suc, ◌+◌, ◌-◌, ◌*◌, ◌/◌, ◌%◌, ◌^◌, Bool, true, false, ◌&&◌, [], ◌∷◌, Option, none, some,
  Bytes, ltb, leb, ◌==◌, if◌then◌else◌, ℤ, pos, neg,
}

-- The least number that is no `int64`.
abbrev pub int_limit : ℕ
int_limit = 2 ^ 63

abbrev pub within : ℕ → ℕ → ℕ → Bool
within lo hi c = leb lo c && leb c hi

-- The digit that a byte stands for, in the bases up to 36.
abbrev digit_any : ℕ → Option ℕ
digit_any c =
    if within b'0' b'9' c
    then some (c - b'0')
    else if within b'a' b'z' c
    then some (c - b'a' + 10)
    else if within b'A' b'Z' c
    then some (c - b'A' + 10)
    else none

abbrev in_base : ℕ → Option ℕ → Option ℕ
in_base base none = none
in_base base (some d) = if ltb d base then some d else none

unfoldable pub digit_value : ℕ → ℕ → Option ℕ
digit_value base c = in_base base (digit_any c)

-- The number that the digits of `s` spell behind the digits of `n`.
unfoldable pub parse_digits : ℕ → Bytes → ℕ → Option ℕ
parse_digits base [] n = some n
parse_digits base (c ∷ s) n = elim (digit_value base c) [
  | none ↦ none
  | some d ↦ parse_digits base s (n * base + d)
]

parse_nat : ℕ → Bytes → Option ℕ
parse_nat base [] = none
parse_nat base (c ∷ s) = parse_digits base (c ∷ s) 0

in_range : Option ℕ → Option ℤ
in_range none = none
in_range (some n) = if ltb n int_limit then some (pos n) else none

in_range_neg : Option ℕ → Option ℤ
in_range_neg none = none
in_range_neg (some n) = if leb n int_limit then some (neg n) else none

-- `ParseInt(s, base, 64)` for a base that is given; `none` is its error.
unfoldable pub parse_int : ℕ → Bytes → Option ℤ
unfolding parse_nat in_range in_range_neg parse_digits digit_value
parse_int base [] = none
parse_int base (c ∷ s) =
    if c == b'+'
    then in_range (parse_nat base s)
    else if c == b'-'
    then in_range_neg (parse_nat base s)
    else in_range (parse_nat base (c ∷ s))

-- `Atoi`, on a machine with an `int` of 64 bits.
unfoldable pub atoi : Bytes → Option ℤ
unfolding parse_int
atoi = parse_int 10

unfoldable pub digit_char : ℕ → ℕ
digit_char d = if ltb d 10 then b'0' + d else b'a' + (d - 10)

-- The digits of `n` in front of `out`; each round divides by the base.
unfoldable pub print_digits : ℕ → ℕ → ℕ → Bytes → Bytes
print_digits base zero n out = out
print_digits base (suc fuel) n out = elim (ltb n base) [
  | true ↦ digit_char n ∷ out
  | false ↦ print_digits base fuel (n / base) (digit_char (n % base) ∷ out)
]

-- `Itoa` of a number that is not negative.
unfoldable pub itoa : ℕ → Bytes
unfolding print_digits digit_char
itoa n = print_digits 10 (suc n) n []

-- `FormatInt(n, 16)`.
unfoldable pub hex : ℕ → Bytes
unfolding print_digits digit_char
hex n = print_digits 16 (suc n) n []
