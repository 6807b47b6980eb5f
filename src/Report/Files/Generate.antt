-- ===== src/Report/Files/Generate.antt =====
-- benchcli-go/report/reporter.go: the tables of the report files, and `generateReports` of
-- benchcli-go/client.go, which writes them.
use go_http_benchmark.Prelude.{Bool, List, [], ◌∷◌, ◌++◌, Bytes, codes, map, true}
use go_http_benchmark.Report.Cells.{Report}
use go_http_benchmark.Report.Columns.{Kind, connections, bench_echo, bench_rate}
use go_http_benchmark.Report.Files.{Disk, Json, read_reports, filename}
use go_http_benchmark.Report.Markdown.{markdown}
use go_http_benchmark.Report.Outside.{Outside}
use go_http_benchmark.Report.Ratios.{Ratios, fill_tps}
use go_http_benchmark.Report.Summary.{summary}
use go_http_benchmark.Report.Table.{Runes}

-- A table under the name of its file and the name that the console shows it by.
pub record Section : Type 0 where
  pub filename : Bytes
  pub console : Bytes
  pub table : List Runes

module _ (o : Outside) (f : Ratios o) (json : Json o.Float) (disk : Disk) where
  -- `ReadConnectionsReports`, `ReadBenchEchoReports` and `ReadBenchRateReports`.
  abbrev pub filled_reports : Kind → List (Report o.Float) → List (Report o.Float)
  filled_reports bench_rate rs = map (fill_tps o f) rs
  filled_reports connections rs = rs
  filled_reports bench_echo rs = rs

  unfoldable pub read_reports_of : Kind → Bytes → Bytes → List (Report o.Float)
  unfolding read_reports fill_tps
  read_reports_of kind preffix suffix =
      filled_reports kind (read_reports json o.zero_float kind preffix suffix disk)

  -- `GenerateConnectionsReports`, `GenerateBenchEchoReports` and `GenerateBenchRateReports`.
  unfoldable pub generate_reports_of :
      Kind → Bytes → Bytes → Bool → Bytes → (Bytes → Bool) → List Runes
  unfolding read_reports_of markdown
  generate_reports_of kind preffix suffix enable_tpn order filter =
      markdown o (read_reports_of kind preffix suffix) enable_tpn order filter

  -- `GenerateSummary`.
  unfoldable pub generate_summary : Bytes → Bytes → List Runes
  unfolding read_reports_of summary
  generate_summary preffix suffix = summary o (
      read_reports_of connections preffix suffix
      ++ (read_reports_of bench_echo preffix suffix ++ read_reports_of bench_rate preffix suffix))

  abbrev pub section_of : Bytes → Bytes → Bytes → List Runes → Section
  section_of name preffix suffix table = record {
    filename = filename name preffix (suffix ++ codes ".md");
    console = preffix ++ (name ++ suffix);
    table = table;
  }

  -- The sections of `generateReports`; the filter is nil.
  unfoldable pub generate_reports : Bytes → Bytes → Bool → Bytes → List Section
  unfolding generate_reports_of generate_summary filename
  generate_reports preffix suffix enable_tpn order =
      section_of (codes "Summary") preffix suffix (generate_summary preffix suffix)
      ∷ section_of (codes "Connections") preffix suffix
          (generate_reports_of connections preffix suffix enable_tpn order (λ h. true))
      ∷ section_of (codes "BenchEcho") preffix suffix
          (generate_reports_of bench_echo preffix suffix enable_tpn order (λ h. true))
      ∷ section_of (codes "BenchPipeline") preffix suffix
          (generate_reports_of bench_rate preffix suffix enable_tpn order (λ h. true))
      ∷ []
