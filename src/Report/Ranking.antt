-- ===== src/Report/Ranking.antt =====
-- benchcli-go/report/reporter.go: what the reports are ranked by, and their order.
pub mod Order
use go_http_benchmark.Prelude.{
  ℕ, zero, suc, ◌+◌, Bool, true, false, not, ◌&&◌, List, [], ◌∷◌, Option, none, some, Bytes, codes,
  equal, ltb, if◌then◌else◌,
}
use go_http_benchmark.Golib.Sort.{slice_stable}
use go_http_benchmark.Report.Cells.{Report, Value, int, uint, float, text, bool, bytes}
use go_http_benchmark.Report.Columns.{Column, Kind, columns, connections, bench_echo, bench_rate}
use go_http_benchmark.Report.Outside.{Outside}

-- The orders of a report table.
abbrev pub sort_result : Bytes
sort_result = codes "result"

abbrev sort_framework : Bytes
sort_framework = codes "framework"

abbrev sort_orders : List Bytes
sort_orders = sort_result ∷ sort_framework ∷ []

abbrev any_equal : Bytes → List Bytes → Bool
any_equal order [] = false
any_equal order (v ∷ vs) = if equal order v then true else any_equal order vs

-- `ValidateSort`: whether there is no error.
unfoldable pub validate_sort : Bytes → Bool
validate_sort order = any_equal order sort_orders

pub record RankField : Type 0 where
  pub rank : ℕ
  pub index : ℕ
  pub header : Bytes

abbrev ranked : Column → ℕ → Option ℕ → List RankField → List RankField
ranked c i none fs = fs
ranked c i (some rank) fs = record { rank = rank; index = i; header = c.md } ∷ fs

unfoldable rank_tagged : List Column → ℕ → List RankField
rank_tagged [] i = []
rank_tagged (c ∷ cs) i = ranked c i c.rank (rank_tagged cs (suc i))

-- `rankFields`, of the struct that a report is; the ranks of a struct differ, so a stable sort
-- gives what `sort.Slice` gives.
unfoldable pub rank_fields : Kind → List RankField
unfolding rank_tagged slice_stable
rank_fields kind = slice_stable (λ a b. ltb a.rank b.rank) (rank_tagged (columns kind) 0)

abbrev pub field_at {ℓ} : {A : Type ℓ} → ℕ → List A → Option A
field_at i [] = none
field_at zero (x ∷ xs) = some x
field_at (suc i) (x ∷ xs) = field_at i xs

module _ (o : Outside) where
  abbrev pub key_of : Option (Value o.Float) → List o.Float → List o.Float
  key_of (some (int n)) ks = o.of_int n ∷ ks
  key_of (some (uint n)) ks = o.of_uint n ∷ ks
  key_of (some (float x)) ks = x ∷ ks
  key_of v ks = ks

  unfoldable pub keys_of : List RankField → List (Value o.Float) → List o.Float
  keys_of [] vs = []
  keys_of (f ∷ fs) vs = key_of (field_at f.index vs) (keys_of fs vs)

  -- `RankKeys`.
  unfoldable pub rank_keys : Report o.Float → List o.Float
  unfolding keys_of rank_fields
  rank_keys r = keys_of (rank_fields r.kind) r.values

  -- `rankedBefore`.
  unfoldable pub ranked_before : List o.Float → List o.Float → Bool
  ranked_before [] bs = false
  ranked_before (a ∷ as') [] = false
  ranked_before (a ∷ as') (b ∷ bs) = if o.differ a b then o.above a b else ranked_before as' bs

  -- The field `Skipped` of a BenchRateReport.
  abbrev skipped_flag : Option (Value o.Float) → Bool
  skipped_flag (some (bool b)) = b
  skipped_flag v = false

  abbrev skipped_at : Kind → List (Value o.Float) → Bool
  skipped_at bench_rate vs = skipped_flag (field_at 23 vs)
  skipped_at connections vs = false
  skipped_at bench_echo vs = false

  -- `isSkipped`.
  unfoldable pub is_skipped : Report o.Float → Bool
  is_skipped r = skipped_at r.kind r.values

  abbrev differs : Bool → Bool → Bool
  differs true b = not b
  differs false b = b

  -- The order that `SortReports` sorts by.
  unfoldable pub less : Report o.Float → Report o.Float → Bool
  less a b =
      if differs (is_skipped a) (is_skipped b)
      then is_skipped b
      else ranked_before (rank_keys a) (rank_keys b)

  -- `SortReports`.
  unfoldable pub sort_reports : List (Report o.Float) → Bytes → List (Report o.Float)
  sort_reports reports order =
      if equal order sort_result then slice_stable less reports else reports
