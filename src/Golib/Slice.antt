-- ===== src/Golib/Slice.antt =====
-- A `[]byte` with what stands behind it: `array` is the backing array from the slice's first
-- byte up to its capacity, so the bytes past `len` are what an earlier use of it left there.
use go_http_benchmark.Prelude.{
  ℕ, ◌+◌, ◌-◌, ◌≤◌, ◌≡◌, refl, ◌++◌, ap, arith, Bytes, take, drop, length, length-append,
  length-take, take-append, subst, sym, length-drop, [], ◌∷◌, suc,
}
use native.Mathlib.Nat.{zero-add}

pub record Slice : Type 0 where
  pub len : ℕ
  pub array : Bytes

abbrev pub cap : Slice → ℕ
cap b = length b.array

abbrev pub view : Slice → Bytes
view b = take b.len b.array

-- The slice lies within its array.
abbrev pub IsSlice : Slice → Type 0
IsSlice b = b.len ≤ cap b

-- A nil slice.
abbrev pub nil : Slice
nil = record { len = 0; array = [] }

-- `b[:0]`.
abbrev pub reset : Slice → Slice
reset b = record b { len = 0 }

-- The bytes `s` written over the last `n` of `b`, `s` no longer than `n`.
unfoldable pub fill : Slice → ℕ → Bytes → Slice
fill b n s =
    let start = b.len - n in
    record b { array = take start b.array ++ (s ++ drop (start + length s) b.array) }

pub fill-len : (b : Slice) (n : ℕ) (s : Bytes) → (fill b n s).len ≡ b.len
unfolding fill
fill-len b n s = refl

-- The two first of three parts.
take_two : (xs ys zs : Bytes) → take (length xs + length ys) (xs ++ (ys ++ zs)) ≡ xs ++ ys
take_two [] ys zs = rw zero-add (take-append ys zs)
take_two (x ∷ xs) ys zs =
    let e : suc (length xs) + length ys ≡ suc (length xs + length ys) = omega arith in
    rw e (ap (◌∷◌ x) (take_two xs ys zs))

-- What a slice shows when its last `length s` bytes are written over with `s`.
pub view-fill :
    (b : Slice) (s : Bytes)
    → IsSlice b
    → length s ≤ b.len
    → view (fill b (length s) s) ≡ take (b.len - length s) b.array ++ s
unfolding fill
view-fill b s h le =
    let front = take (b.len - length s) b.array in
    let e : b.len ≡ length front + length s =
      omega (arith, length-take (b.len - length s) b.array) in
    subst (λ n. take n (front ++ (s ++ drop (b.len - length s + length s) b.array)) ≡ front ++ s)
      (sym e) (take_two front s _)

-- The array keeps its size under a write within it.
pub cap-fill :
    (b : Slice) (s : Bytes) → IsSlice b → length s ≤ b.len → cap (fill b (length s) s) ≡ cap b
unfolding fill
cap-fill b s h le =
    let start = b.len - length s in
    let behind = drop (start + length s) b.array in
    omega (
      arith,
      length-append (take start b.array) (s ++ behind),
      length-append s behind,
      length-take start b.array,
      length-drop (start + length s) b.array,
    )

-- The bytes `s` read into `b[len(b):cap(b)]`, and `b` extended by them.
unfoldable pub extend : Slice → Bytes → Slice
extend b s = record {
  len = b.len + length s;
  array = take b.len b.array ++ (s ++ drop (b.len + length s) b.array);
}

-- What an extended slice shows, where there is room for the bytes.
pub view-extend : (b : Slice) (s : Bytes) → IsSlice b → view (extend b s) ≡ view b ++ s
unfolding extend
view-extend b s h =
    let front = take b.len b.array in
    let e : b.len + length s ≡ length front + length s = omega (arith, length-take b.len b.array) in
    subst (λ n. take n (front ++ (s ++ drop (b.len + length s) b.array)) ≡ front ++ s) (sym e)
      (take_two front s _)

pub cap-extend : (b : Slice) (s : Bytes) → b.len + length s ≤ cap b → cap (extend b s) ≡ cap b
unfolding extend
cap-extend b s h =
    let behind = drop (b.len + length s) b.array in
    omega (
      arith,
      length-append (take b.len b.array) (s ++ behind),
      length-append s behind,
      length-take b.len b.array,
      length-drop (b.len + length s) b.array,
    )

pub len-extend : (b : Slice) (s : Bytes) → (extend b s).len ≡ b.len + length s
unfolding extend
len-extend b s = refl
