-- ===== src/Report/Percent.antt =====
-- benchcli-go/report/reporter.go: the share of the best, and the cells it is written into.
pub mod Best
pub mod Width
use go_http_benchmark.Prelude.{
  ℕ, zero, suc, ◌-◌, Bool, true, false, ◌&&◌, ◌||◌, not, List, [], ◌∷◌, ◌++◌, Bytes, codes, length,
  replicate, if◌then◌else◌, ltb, ℤ, pos, negsuc,
}
use go_http_benchmark.Golib.Strconv.{itoa}
use go_http_benchmark.Report.Cells.{int_text}
use go_http_benchmark.Report.Outside.{Outside}

-- `min(percent, 99)`.
abbrev pub at_most_99 : ℤ → ℤ
at_most_99 (pos n) = if ltb n 99 then pos n else pos 99
at_most_99 (negsuc n) = negsuc n

abbrev pub max : ℕ → ℕ → ℕ
max a b = if ltb a b then b else a

module _ (o : Outside) where
  -- `a >= b` of floating-point numbers, none of which is NaN.
  abbrev pub at_least : o.Float → o.Float → Bool
  at_least a b = o.above a b || not (o.differ a b)

  -- `Percent`.
  unfoldable pub percent : o.Float → o.Float → Bytes
  percent value best =
      if at_least o.zero_float best || at_least o.zero_float value
      then codes "0%"
      else if at_least value best
      then codes "100%"
      else int_text (at_most_99 (o.floor_percent value best)) ++ codes "%"

  -- `math.Max`, of numbers that are not NaN.
  abbrev max_float : o.Float → o.Float → o.Float
  max_float a b = if o.above b a then b else a

  best_from : o.Float → List o.Float → o.Float
  best_from best [] = best
  best_from best (v ∷ vs) = best_from (max_float best v) vs

  -- The biggest of the column's values, and 0 where none is above it.
  unfoldable pub best_of : List o.Float → o.Float
  unfolding best_from
  best_of vs = best_from o.zero_float vs

-- A cell of the column with its percentage.
pub record Share : Type 0 where
  pub cell : Bytes
  pub share : Bytes

unfoldable pub value_len : List Share → ℕ
value_len [] = 0
value_len (s ∷ ss) = max (value_len ss) (length s.cell)

unfoldable pub percent_len : List Share → ℕ
percent_len [] = 0
percent_len (s ∷ ss) = max (percent_len ss) (length s.share)

-- Spaces in front of a text up to a length.
abbrev pub right : ℕ → Bytes → Bytes
right n s = replicate (n - length s) b' ' ++ s

-- The cell that `withPercent` puts in a row.
unfoldable pub share_cell : ℕ → ℕ → Share → Bytes
share_cell values percents s = right values s.cell ++ b' ' ∷ right percents s.share

share_cells : ℕ → ℕ → List Share → List Bytes
unfolding share_cell
share_cells values percents [] = []
share_cells values percents (s ∷ ss) = share_cell values percents s ∷ share_cells values percents ss

-- The second loop of `withPercent`, of the column's cells.
unfoldable pub padded_cells : List Share → List Bytes
unfolding share_cells value_len percent_len
padded_cells ss = share_cells (value_len ss) (percent_len ss) ss

module _ (o : Outside) where
  unfoldable pub shares : o.Float → List Bytes → List o.Float → List Share
  unfolding percent
  shares best [] vs = []
  shares best (c ∷ cs) [] = []
  shares best (c ∷ cs) (v ∷ vs) = record { cell = c; share = percent o v best } ∷ shares best cs vs

  -- `withPercent`, of the column's cells and values.
  unfoldable pub with_percent : List Bytes → List o.Float → List Bytes
  unfolding shares best_of padded_cells
  with_percent cells values = padded_cells (shares (best_of o values) cells values)
