-- ===== src/Report/Outside.antt =====
-- What the reports use and do not implement: floating-point numbers, and the texts that the perf
-- library writes sizes and times in.
use go_http_benchmark.Prelude.{ℕ, Bool, Bytes, ℤ, ◌≡◌, ltb, ◌==◌, not}

pub record Outside : Type 1 where
  pub Float : Type 0
  pub zero_float : Float
  -- `float64(v)` for an `int64` and for a `uint64`
  pub of_int : ℤ → Float
  pub of_uint : ℕ → Float
  -- `a > b` and `a != b`
  pub above : Float → Float → Bool
  pub differ : Float → Float → Bool
  -- `int64(math.Floor(value*100/best + percentSlack))`
  pub floor_percent : Float → Float → ℤ
  -- `fmt.Sprintf("%.2f", v)`
  pub two_decimals : Float → Bytes
  -- `perf.I2MemString` and `perf.I2TimeString`
  pub mem_string : ℕ → Bytes
  pub time_string : ℤ → Bytes

-- The comparisons of floating-point numbers that are not NaN: they are those of the numbers'
-- places in the order of all floating-point numbers, of which there are finitely many.
pub record IsOrdered (o : Outside) : Type 0 where
  pub place : o.Float → ℕ
  pub above_is : (a b : o.Float) → o.above a b ≡ ltb (place b) (place a)
  pub differ_is : (a b : o.Float) → o.differ a b ≡ not (place a == place b)
