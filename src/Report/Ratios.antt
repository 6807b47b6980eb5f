-- ===== src/Report/Ratios.antt =====
-- benchcli-go/report/reporter.go and benchrate_report.go: the throughput of a run, and what of it a
-- server got for the CPU and the memory it spent.
use go_http_benchmark.Prelude.{
  ℕ, Bool, false, not, ◌||◌, List, ◌∷◌, if◌then◌else◌, ℤ, pos, negsuc, is_zero,
}
use go_http_benchmark.Report.Cells.{Report, Value, int}
use go_http_benchmark.Report.Outside.{Outside}

-- What the ratios use of floating-point numbers.
pub record Ratios (o : Outside) : Type 0 where
  pub divide : o.Float → o.Float → o.Float
  pub is_nan : o.Float → Bool
  pub is_inf : o.Float → Bool
  -- `v <= 0`
  pub is_at_most_zero : o.Float → Bool
  -- `1<<20`, and `float64(time.Second)`
  pub mebi : o.Float
  pub second : o.Float
  -- `int64(math.Floor(v))`
  pub floor : o.Float → ℤ

abbrev is_positive : ℤ → Bool
is_positive (pos n) = not (is_zero (pos n))
is_positive (negsuc n) = false

module _ (o : Outside) (f : Ratios o) where
  -- `eer`.
  unfoldable pub eer : o.Float → o.Float → o.Float
  eer throughput cost =
      if f.is_at_most_zero cost || (f.is_nan cost || (f.is_inf throughput || f.is_nan throughput))
      then o.zero_float
      else (let v = f.divide throughput cost in
          if f.is_inf v || f.is_nan v then o.zero_float else v)

  -- `CPUEER`.
  unfoldable pub cpu_eer : o.Float → o.Float → o.Float
  unfolding eer
  cpu_eer throughput cpu_avg = eer throughput cpu_avg

  -- `MEMEER`.
  unfoldable pub mem_eer : o.Float → ℕ → o.Float
  unfolding eer
  mem_eer throughput mem_avg = eer throughput (f.divide (o.of_uint mem_avg) f.mebi)

  -- `RateTPS`.
  unfoldable pub rate_tps : ℤ → ℤ → o.Float
  rate_tps recv_times duration =
      if is_positive duration
      then f.divide (o.of_int recv_times) (f.divide (o.of_int duration) f.second)
      else o.zero_float

  abbrev pub filled_tps : ℤ → ℤ → ℤ → ℤ
  filled_tps tps recv_times duration =
      if is_zero tps
      then (if is_positive recv_times then f.floor (rate_tps recv_times duration) else tps)
      else tps

  -- `fillTPS`, at the values of a BenchRateReport.
  abbrev pub fill_values : List (Value o.Float) → List (Value o.Float)
  fill_values (v0 ∷ v1 ∷ v2 ∷ int duration ∷ int tps ∷ v5 ∷ v6 ∷ v7 ∷ v8 ∷ int recv_times ∷ vs) =
      v0
      ∷ v1
      ∷ v2
      ∷ int duration
      ∷ int (filled_tps tps recv_times duration)
      ∷ v5
      ∷ v6
      ∷ v7
      ∷ v8
      ∷ int recv_times
      ∷ vs
  fill_values vs = vs

  -- `fillTPS`.
  unfoldable pub fill_tps : Report o.Float → Report o.Float
  unfolding rate_tps
  fill_tps r = record { kind = r.kind; values = fill_values r.values }
