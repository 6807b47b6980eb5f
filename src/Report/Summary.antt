-- ===== src/Report/Summary.antt =====
-- benchcli-go/report/summary.go: the table of the run's parameters.
pub mod Order
use go_http_benchmark.Prelude.{
  ℕ, Bool, true, false, not, List, [], ◌∷◌, ◌++◌, Option, none, some, Bytes, codes, equal,
  if◌then◌else◌, map,
}
use Prim.Native.String.{String}
use go_http_benchmark.Golib.Text.{join}
use go_http_benchmark.Report.Cells.{Report, Value, cell_string, text}
use go_http_benchmark.Report.Columns.{Column, columns}
use go_http_benchmark.Report.Outside.{Outside}
use go_http_benchmark.Report.Ranking.{is_skipped}
use go_http_benchmark.Report.Table.{markdown_table_aligned, Runes}

pub record SummaryParameter : Type 0 where
  pub name : Bytes
  pub description : Bytes

abbrev parameter : String → String → SummaryParameter
parameter name description = record { name = codes name; description = codes description }

-- `SummaryParameters`.
abbrev pub summary_parameters : List SummaryParameter
summary_parameters =
    parameter "Client" "The benchmark client the load came from"
    ∷ parameter "Conns" "Keep-alive connections dialed (-c) and used by every benchmark"
    ∷ parameter "Payload" "Request body size in bytes (-b), which the server echoes back"
    ∷ parameter "Dial Concurrency" "Connections dialed at once in Connections (-dc)"
    ∷ parameter "Echo Concurrency" "Connections with a request in flight at once in BenchEcho (-ec)"
    ∷ parameter "Echo Total" "Request/response round trips BenchEcho makes in all (-en)"
    ∷ parameter "Echo Pprof" "Go servers' pprof CPU/heap profiles fetched in BenchEcho (-ep)"
    ∷ parameter "Rate Concurrency"
        "Goroutines writing BenchPipeline's batches, over all connections (-rc)"
    ∷ parameter "Rate Duration" "How long BenchPipeline sends for (-rd)"
    ∷ parameter "Rate SendRate" "Requests sent to each connection per second in BenchPipeline (-rr)"
    ∷ parameter "Rate Pipeline"
        "Requests merged into one write per connection in BenchPipeline (-rpl)"
    ∷ parameter "Rate Pprof" "Go servers' pprof CPU/heap profiles fetched in BenchPipeline (-rp)"
    ∷ []

-- `summaryValue`.
pub record SummaryValue : Type 0 where
  pub value : Bytes
  pub frameworks : List Bytes

abbrev pub has : Bytes → List Bytes → Bool
has name [] = false
has name (n ∷ ns) = if equal n name then true else has name ns

-- `addSummaryValue`.
unfoldable pub add_summary_value : List SummaryValue → Bytes → Bytes → List SummaryValue
add_summary_value [] value framework = record { value = value; frameworks = framework ∷ [] } ∷ []
add_summary_value (v ∷ vs) value framework =
    let rest = add_summary_value vs value framework in
    if equal v.value value
    then (if has framework v.frameworks
        then v
        else record { value = v.value; frameworks = v.frameworks ++ framework ∷ [] })
      ∷ vs
    else v ∷ rest

abbrev part : SummaryValue → Bytes
part v = v.value ++ (codes " (" ++ (join v.frameworks (codes ", ") ++ codes ")"))

-- `summaryString`.
unfoldable pub summary_string : List SummaryValue → Bytes
summary_string (v ∷ []) = v.value
summary_string vs = join (map part vs) (codes "; ")

-- `summaryDescription`.
unfoldable pub summary_description : List SummaryParameter → Bytes → Bytes
summary_description [] name = []
summary_description (p ∷ ps) name =
    if equal p.name name then p.description else summary_description ps name

-- The map `found`: its names, without those deleted.
abbrev pub delete : Bytes → List Bytes → List Bytes
delete name [] = []
delete name (n ∷ ns) = if equal n name then delete name ns else n ∷ delete name ns

-- The names put in order, and what is left of `found`.
pub record Listed : Type 0 where
  pub ordered : List Bytes
  pub found : List Bytes

abbrev pub in_front : Bytes → Listed → Listed
in_front name l = record { ordered = name ∷ l.ordered; found = l.found }

-- The first loop of `summaryOrder`.
unfoldable pub listed : List SummaryParameter → List Bytes → Listed
listed [] found = record { ordered = []; found = found }
listed (p ∷ ps) found = elim (has p.name found) [
  | true ↦ in_front p.name (listed ps (delete p.name found))
  | false ↦ listed ps found
]

-- The second loop, over all the names.
unfoldable pub unlisted : List Bytes → List Bytes → List Bytes
unlisted [] found = []
unlisted (name ∷ names) found =
    if has name found then name ∷ unlisted names found else unlisted names found

-- `summaryOrder`.
unfoldable pub summary_order : List Bytes → List Bytes
unfolding listed unlisted
summary_order names = let l = listed summary_parameters names in l.ordered ++ unlisted names l.found

module _ (o : Outside) where
  -- The map `values`, with the names in the order they were found.
  abbrev pub Table : Type 0
  Table = List (Bytes × List SummaryValue)

  abbrev pub names_of : Table → List Bytes
  names_of t = map (λ e. e.0) t

  abbrev pub lookup : Bytes → Table → List SummaryValue
  lookup name [] = []
  lookup name ((n, vs) ∷ t) = if equal n name then vs else lookup name t

  unfoldable pub note_value : Bytes → Bytes → Bytes → Table → Table
  unfolding add_summary_value
  note_value name value framework [] = (name, add_summary_value [] value framework) ∷ []
  note_value name value framework ((n, vs) ∷ t) =
      let rest = note_value name value framework t in
      if equal n name then (n, add_summary_value vs value framework) ∷ t else (n, vs) ∷ rest

  -- The loop over a report's fields.
  unfoldable pub note_fields : List Column → List (Value o.Float) → Bytes → Table → Table
  unfolding note_value cell_string
  note_fields [] vs framework t = t
  note_fields (c ∷ cs) [] framework t = t
  note_fields (c ∷ cs) (v ∷ vs) framework t =
      note_fields cs vs framework
        (if equal c.summary [] then t else note_value c.summary (cell_string o c v) framework t)

  -- The field `Framework`, the first of every report.
  abbrev pub framework_of : List (Value o.Float) → Bytes
  framework_of (text s ∷ vs) = s
  framework_of vs = []

  -- The loop over the reports of the tables.
  unfoldable pub note_reports : List (Report o.Float) → Table → Table
  unfolding note_fields is_skipped
  note_reports [] t = t
  note_reports (r ∷ rs) t = note_reports rs (
      if is_skipped o r then t else note_fields (columns r.kind) r.values (framework_of r.values) t)

  abbrev row_of : Table → Bytes → List Bytes
  row_of t name =
      name ∷ summary_string (lookup name t) ∷ summary_description summary_parameters name ∷ []

  -- The rows of the table under its title, and none where no value was found. `found` is the
  -- reports of all the tables, one table after the other.
  abbrev rows_of : Table → Option (List (List Bytes))
  rows_of [] = none
  rows_of (e ∷ t) = some (
      (codes "Project" ∷ codes "GO-HTTP1-BENCHMARK" ∷ codes "The benchmark this run is from" ∷ [])
      ∷ map (row_of (e ∷ t)) (summary_order (names_of (e ∷ t))))

  unfoldable pub summary_rows : List (Report o.Float) → Option (List (List Bytes))
  unfolding note_reports summary_order
  summary_rows found = rows_of (note_reports found [])

  abbrev table_of : Option (List (List Bytes)) → List Runes
  table_of none = []
  table_of (some rows) =
      markdown_table_aligned (codes "Parameter" ∷ codes "Value" ∷ codes "Description" ∷ []) rows
        true

  -- `Summary`, of cells of single-byte characters.
  unfoldable pub summary : List (Report o.Float) → List Runes
  unfolding summary_rows markdown_table_aligned
  summary found = table_of (summary_rows found)
