-- ===== src/Report/Percent/Best.antt =====
-- What a percentage reads as.
use go_http_benchmark.Prelude.{
  ℕ, suc, ◌≤◌, ◌<◌, ◌≡◌, ◌≢◌, ap, true, ◌∷◌, ◌++◌, Bytes, codes, length, arith, ltb, Bool-cases,
  inl, inr, ℤ, pos, negsuc, length-append, ◌↔◌,
}
use go_http_benchmark.Golib.Strconv.{itoa}
use go_http_benchmark.Golib.Strconv.Printed.{length-itoa_small}
use go_http_benchmark.Report.Cells.{int_text}
use go_http_benchmark.Report.Percent.{at_most_99, percent, at_least}
use go_http_benchmark.Report.Outside.{Outside, IsOrdered}

length-at_most_99 : (n : ℕ) → length (int_text (at_most_99 (pos n))) ≤ 2
length-at_most_99 n = elim (Bool-cases (ltb n 99)) [
  | inl e ↦ rw e (length-itoa_small n (ground arith))
  | inr e ↦ rw e (length-itoa_small 99 (omega arith))
]

short_ne : (s : Bytes) → length s ≤ 2 → s ++ codes "%" ≢ codes "100%"
short_ne s l h = omega (arith, length-append s (codes "%"), ap length h)

minus_ne : (s : Bytes) → b'-' ∷ s ≢ codes "100%"
minus_ne s h = absurd cc

-- A percentage that was held under 100 does not read "100%".
int_text-at_most_99 : (z : ℤ) → int_text (at_most_99 z) ++ codes "%" ≢ codes "100%"
int_text-at_most_99 (negsuc n) = minus_ne (itoa (suc n) ++ codes "%")
int_text-at_most_99 (pos n) = short_ne (int_text (at_most_99 (pos n))) (length-at_most_99 n)

module _ (o : Outside) (w : IsOrdered o) where
  at_least_iff : (a b : o.Float) → (at_least o a b ≡ true) ↔ (w.place b ≤ w.place a)
  at_least_iff a b = grind (arith, w.above_is a b, w.differ_is a b)

  -- A row reads "100%" exactly where its value is above 0 and no smaller than the best, which is
  -- above 0 as well.
  pub percent_iff :
      (value best : o.Float)
      → (percent o value best ≡ codes "100%") ↔ (
          (w.place o.zero_float < w.place best)
          × (w.place o.zero_float < w.place value)
          × (w.place best ≤ w.place value))
  unfolding percent
  percent_iff value best = grind (
    arith,
    at_least_iff o.zero_float best,
    at_least_iff o.zero_float value,
    at_least_iff value best,
    int_text-at_most_99 (o.floor_percent value best),
  )
