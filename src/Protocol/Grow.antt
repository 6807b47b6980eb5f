-- ===== src/Protocol/Grow.antt =====
-- `grow`: room for `n` more bytes, in the slice's own array where that has it.
use go_http_benchmark.Prelude.{
  ℕ, ◌+◌, ◌-◌, ◌≤◌, ◌<◌, ◌≡◌, ◌++◌, Option, none, some, refl, arith, Bytes, length, take, ltb, leb,
  replicate, if◌then◌else◌, length-append, length-take, length-replicate, take-append, ◌⊎◌, inl,
  inr, sym, Bool-cases, ◌∙◌, subst,
}
use go_http_benchmark.Golib.Slice.{Slice, cap, view, IsSlice, fill, fill-len, view-fill, cap-fill}
use go_http_benchmark.Golib.Strconv.{int_limit}

-- A fresh array is zeroed and holds the bytes copied. `none` is the panic of `make` at a
-- capacity that is negative, which is what a sum of 2^63 and more is in an `int`.
fresh : Slice → ℕ → Option Slice
fresh b n =
    if leb int_limit (b.len + n)
    then none
    else some (record { len = b.len + n; array = view b ++ replicate n 0 })

unfoldable pub grow : Slice → ℕ → Option Slice
unfolding fresh
grow b n = if ltb (cap b - b.len) n then fresh b n else some (record b { len = b.len + n })

-- What holds of a slice grown from `b` by `n`.
pub record Grown (b : Slice) (n : ℕ) (b' : Slice) : Type 0 where
  pub len_is : b'.len ≡ b.len + n
  pub fits : IsSlice b'
  pub keeps : take b.len b'.array ≡ view b

fresh-Grown :
    (b : Slice) (n : ℕ)
    → IsSlice b
    → Grown b n (record { len = b.len + n; array = view b ++ replicate n 0 })
fresh-Grown b n h = record {
  len_is = refl;
  fits = omega (
    arith,
    length-append (view b) (replicate n 0),
    length-replicate {A = ℕ} n 0,
    length-take b.len b.array,
  );
  keeps = take_view;
}
  where
    len_view : length (view b) ≡ b.len
    len_view = omega (arith, length-take b.len b.array)

    take_view : take b.len (view b ++ replicate n 0) ≡ view b
    take_view =
        subst (λ k. take k (view b ++ replicate n 0) ≡ view b) len_view (take-append (view b) _)

grow_cases :
    (b : Slice) (n : ℕ) {b' : Slice}
    → grow b n ≡ some b'
    → (b' ≡ record { len = b.len + n; array = view b ++ replicate n 0 })
      ⊎ ((b' ≡ record { len = b.len + n; array = b.array }) × (n ≤ cap b - b.len))
unfolding grow
grow_cases b n e = ground arith

pub grow-Grown : (b : Slice) (n : ℕ) {b' : Slice} → IsSlice b → grow b n ≡ some b' → Grown b n b'
grow-Grown b n h e = elim (grow_cases b n e) [
  | inl new ↦ subst (Grown b n) (sym new) (fresh-Grown b n h)
  | inr (same, room) ↦
      subst (Grown b n) (sym same) (record { len_is = refl; fits = omega arith; keeps = refl })
]

-- `grow` answers as long as the sum is an `int`.
pub grow-eq_some : (b : Slice) (n : ℕ) → b.len + n < int_limit → (b' : Slice) × (grow b n ≡ some b')
unfolding grow
grow-eq_some b n h = elim (Bool-cases (ltb (cap b - b.len) n)) [
  | inl new ↦ (record { len = b.len + n; array = view b ++ replicate n 0 }, ground arith)
  | inr room ↦ (record b { len = b.len + n }, ground arith)
]

module _ (b : Slice) (s : Bytes) {b' : Slice} (g : Grown b (length s) b') where
  -- Bytes read into the grown part stand behind what the slice showed before, whatever its
  -- array held there.
  pub view-fill-grow : view (fill b' (length s) s) ≡ view b ++ s
  view-fill-grow =
      let e : b'.len - length s ≡ b.len = omega (arith, g.len_is) in
      view-fill b' s g.fits (omega (arith, g.len_is)) ∙ rw e (rw g.keeps)

  pub fill-grow-IsSlice : IsSlice (fill b' (length s) s)
  fill-grow-IsSlice =
      omega
        (arith, cap-fill b' s g.fits (omega (arith, g.len_is)), fill-len b' (length s) s, g.fits)
