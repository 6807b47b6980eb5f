-- ===== src/Tests/Report.antt =====
-- Reports, their tables and their parameters.
use go_http_benchmark.Prelude.{
  ℕ, ◌*◌, ◌/◌, ◌≡◌, ◌≤◌, ◌<◌, ◌↔◌, refl, false, not, [], ◌∷◌, ◌++◌, arith, Bytes, codes, List,
  length, All, pos, negsuc, ℤ, ltb, ◌==◌, suc,
}
use mathlib.Core.List.{Perm}
use go_http_benchmark.Golib.Sort.{select, ties}
use go_http_benchmark.Golib.Strconv.{itoa}
use go_http_benchmark.Report.Cells.{Report, text, int, int_text}
use go_http_benchmark.Report.Columns.{connections}
use go_http_benchmark.Report.Outside.{Outside, IsOrdered}
use go_http_benchmark.Report.Percent.{percent}
use go_http_benchmark.Report.Percent.Best.{percent_iff}
use go_http_benchmark.Report.Ranking.{sort_reports, sort_result, less}
use go_http_benchmark.Report.Ranking.Order.{IsRanked, IsOf, sort_reports_result}
use go_http_benchmark.Report.Summary.{summary_order, summary_parameters, has}
use go_http_benchmark.Report.Summary.Order.{summary_order_lem, parameter_names}
use go_http_benchmark.Report.Table.{markdown_table_aligned, max_lens}
use go_http_benchmark.Report.Table.Padding.{total}
use go_http_benchmark.Report.Table.Aligned.{markdown_table_aligned_width}

-- Whole numbers in place of floating-point ones.
abbrev pub whole_of : ℤ → ℕ
whole_of (pos n) = n
whole_of (negsuc n) = 0

abbrev pub whole : Outside
whole = record {
  Float = ℕ;
  zero_float = 0;
  of_int = whole_of;
  of_uint = λ n. n;
  above = λ a b. ltb b a;
  differ = λ a b. not (a == b);
  floor_percent = λ v best. pos (v * 100 / best);
  two_decimals = λ v. itoa v ++ codes ".00";
  mem_string = itoa;
  time_string = int_text;
}

abbrev whole_places : IsOrdered whole
whole_places = record { place = λ v. v; above_is = λ a b. refl; differ_is = λ a b. refl }

-- A report of Connections with a TPS.
abbrev connected : Bytes → ℕ → Report ℕ
connected framework tps = record {
  kind = connections;
  values =
      text framework
      ∷ text (codes "go")
      ∷ text (codes "benchcli-go")
      ∷ int (pos tps)
      ∷ int (pos 1)
      ∷ int (pos 2)
      ∷ int (pos 3)
      ∷ int (pos 2)
      ∷ int (pos 2)
      ∷ int (pos 2)
      ∷ int (pos 3)
      ∷ int (pos 3)
      ∷ int (pos 9)
      ∷ int (pos 5)
      ∷ int (pos 5)
      ∷ int (pos 0)
      ∷ int (pos 4)
      ∷ [];
}

abbrev two_reports : List (Report ℕ)
two_reports = connected (codes "gin") 10 ∷ connected (codes "fib") 20 ∷ []

sort_reports_result_example :
    Perm (sort_reports whole two_reports sort_result) two_reports
    × IsRanked whole whole_places (sort_reports whole two_reports sort_result)
    × ((r : Report ℕ)
        → IsOf whole whole_places connections r
        → select (ties (less whole) r) (sort_reports whole two_reports sort_result)
          ≡ select (ties (less whole) r) two_reports)
sort_reports_result_example =
    sort_reports_result whole whole_places connections two_reports
      ((refl, omega arith), ((refl, omega arith), tt))

percent_iff_example : (percent whole 7 7 ≡ codes "100%") ↔ ((0 < 7) × (0 < 7) × (7 ≤ 7))
percent_iff_example = percent_iff whole whole_places 7 7

abbrev two_cells : List Bytes
two_cells = codes "1000000" ∷ codes "123456" ∷ []

abbrev two_values : List ℕ
two_values = 1000000 ∷ 123456 ∷ []

abbrev two_rows : List (List Bytes)
two_rows = (codes "gin" ∷ codes "go" ∷ codes "12" ∷ []) ∷ (codes "workflow" ∷ []) ∷ []

markdown_table_aligned_width_example :
    All
      (λ line.
        length line ≡ suc (total (max_lens (codes "Framework" ∷ codes "Lang" ∷ []) two_rows)))
      (markdown_table_aligned (codes "Framework" ∷ codes "Lang" ∷ []) two_rows false)
markdown_table_aligned_width_example =
    markdown_table_aligned_width (codes "Framework" ∷ codes "Lang" ∷ []) two_rows false

abbrev some_names : List Bytes
some_names = codes "Payload" ∷ codes "Odd" ∷ codes "Client" ∷ []

summary_order_lem_example :
    summary_order some_names
    ≡ select (λ q. has q some_names) (parameter_names summary_parameters)
      ++ select (λ n. not (has n (parameter_names summary_parameters))) some_names
summary_order_lem_example = summary_order_lem some_names
