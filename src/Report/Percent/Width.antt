-- ===== src/Report/Percent/Width.antt =====
-- What a percentage reads as, and the cells of a column of them are of one width.
use go_http_benchmark.Prelude.{
  ℕ, suc, ◌+◌, ◌≤◌, ◌≡◌, List, [], ◌∷◌, Bytes, length, arith, All, length-append, length-replicate,
  replicate, ◌-◌,
}
use go_http_benchmark.Report.Percent.{
  Share, value_len, percent_len, share_cell, share_cells, padded_cells, right, shares, best_of,
  with_percent,
}
use go_http_benchmark.Report.Outside.{Outside}

length-right : (n : ℕ) (s : Bytes) → length s ≤ n → length (right n s) ≡ n
length-right n s h = omega (
  arith,
  length-append (replicate (n - length s) b' ') s,
  length-replicate {A = ℕ} (n - length s) b' ',
)

length-share_cell :
    (v p : ℕ) (s : Share)
    → length s.cell ≤ v
    → length s.share ≤ p
    → length (share_cell v p s) ≡ v + suc p
unfolding share_cell
length-share_cell v p s hv hp = omega (
  arith,
  length-append (right v s.cell) (b' ' ∷ right p s.share),
  length-right v s.cell hv,
  length-right p s.share hp,
)

share_cells-All :
    (v p : ℕ) (ss : List Share)
    → value_len ss ≤ v
    → percent_len ss ≤ p
    → All (λ c. length c ≡ v + suc p) (share_cells v p ss)
unfolding share_cells value_len percent_len
share_cells-All v p [] hv hp = tt
share_cells-All v p (s ∷ ss) hv hp = (
  length-share_cell v p s (ground arith) (ground arith),
  share_cells-All v p ss (ground arith) (ground arith),
)

-- Whatever the values, `withPercent` makes the cells of the column equally wide: as wide as the
-- widest value, a space and the widest percentage.
pub with_percent_width :
    (o : Outside) (cells : List Bytes) (values : List o.Float)
    → let ss = shares o (best_of o values) cells values in
      All (λ c. length c ≡ value_len ss + suc (percent_len ss)) (with_percent o cells values)
unfolding with_percent padded_cells
with_percent_width o cells values =
    let ss = shares o (best_of o values) cells values in
    share_cells-All (value_len ss) (percent_len ss) ss (omega arith) (omega arith)
