-- ===== src/Report/Markdown.antt =====
-- benchcli-go/report/reporter.go: the report tables, with the shares of the best in their rank
-- columns and the rows of the benchmarks that were not run.
use go_http_benchmark.Prelude.{
  ℕ, zero, suc, Bool, List, [], ◌∷◌, ◌++◌, Option, none, some, Bytes, codes, equal, if◌then◌else◌,
  map,
}
use go_http_benchmark.Golib.Strconv.{itoa}
use go_http_benchmark.Report.Cells.{Report, headers, obj_field_values}
use go_http_benchmark.Report.Outside.{Outside}
use go_http_benchmark.Report.Percent.{with_percent}
use go_http_benchmark.Report.Ranking.{RankField, rank_fields, rank_keys, is_skipped, sort_reports}
use go_http_benchmark.Report.Table.{Runes, markdown_table}

-- `RankMarker`, of characters: the arrow is one.
unfoldable pub rank_marker : ℕ → Runes
unfolding itoa
rank_marker rank = codes " [" ++ (8595 ∷ (itoa rank ++ codes "]"))

abbrev suc_index : Option ℕ → Option ℕ
suc_index none = none
suc_index (some i) = some (suc i)

-- The first column with a header.
abbrev column_of : Bytes → List Bytes → Option ℕ
column_of header [] = none
column_of header (h ∷ hs) = if equal h header then some zero else suc_index (column_of header hs)

abbrev cell_at : ℕ → List Bytes → Bytes
cell_at i [] = []
cell_at zero (c ∷ cs) = c
cell_at (suc i) (c ∷ cs) = cell_at i cs

abbrev put : ℕ → Bytes → List Bytes → List Bytes
put i v [] = []
put zero v (c ∷ cs) = v ∷ cs
put (suc i) v (c ∷ cs) = c ∷ put i v cs

abbrev put_column : ℕ → List Bytes → List (List Bytes) → List (List Bytes)
put_column col vs [] = []
put_column col [] (row ∷ rows) = row ∷ rows
put_column col (v ∷ vs) (row ∷ rows) = put col v row ∷ put_column col vs rows

-- What every column of a skipped report's row shows but its framework and language.
abbrev skipped_cell : Bytes
skipped_cell = codes "-"

abbrev skipped_row : List Bytes → List Bytes → List Bytes
skipped_row [] row = row
skipped_row (h ∷ hs) [] = []
skipped_row (h ∷ hs) (c ∷ cs) =
    (if equal h (codes "Framework") then c else if equal h (codes "Lang") then c else skipped_cell)
    ∷ skipped_row hs cs

-- The lists that `filtFieldsByHeaders` and `filtHeaders` return for a filter that is not nil, which
-- `Markdown` sees to. That they are written over the lists handed in is not modelled.
unfoldable pub filt : (Bytes → Bool) → List Bytes → List Bytes
filt filter [] = []
filt filter (h ∷ hs) = if filter h then h ∷ filt filter hs else filt filter hs

-- The title with the marker of a rank behind the first header that is the rank's.
unfoldable pub mark : RankField → List Bytes → List Runes → List Runes
unfolding rank_marker
mark rank [] title = title
mark rank (h ∷ hs) [] = []
mark rank (h ∷ hs) (t ∷ ts) =
    if equal h rank.header then (t ++ rank_marker rank.rank) ∷ ts else t ∷ mark rank hs ts

unfoldable pub marked : List RankField → List Bytes → List Runes → List Runes
unfolding mark
marked [] hs title = title
marked (f ∷ fs) hs title = marked fs hs (mark f hs title)

module _ (o : Outside) where
  abbrev key_at : ℕ → List o.Float → o.Float
  key_at i [] = o.zero_float
  key_at zero (k ∷ ks) = k
  key_at (suc i) (k ∷ ks) = key_at i ks

  abbrev shared_column : Option ℕ → List o.Float → List (List Bytes) → List (List Bytes)
  shared_column none values rows = rows
  shared_column (some col) values rows =
      put_column col (with_percent o (map (cell_at col) rows) values) rows

  -- The loop over the rank fields, from the `k`th on.
  unfoldable pub share_columns :
      ℕ → List RankField → List Bytes → List (List o.Float) → List (List Bytes) → List (List Bytes)
  unfolding with_percent
  share_columns k [] hs keys rows = rows
  share_columns k (f ∷ fs) hs keys rows =
      share_columns (suc k) fs hs keys
        (shared_column (column_of f.header hs) (map (key_at k) keys) rows)

  abbrev skip_rows : List Bytes → List (Report o.Float) → List (List Bytes) → List (List Bytes)
  skip_rows hs [] rows = rows
  skip_rows hs (r ∷ rs) [] = []
  skip_rows hs (r ∷ rs) (row ∷ rows) =
      (if is_skipped o r then skipped_row hs row else row) ∷ skip_rows hs rs rows

  -- The rows of the table, before any of its columns is filtered out. The headers are those that
  -- `Init` gave the type, so `Init` and `Markdown` are called with one `enableTPN`.
  unfoldable pub markdown_rows : List (Report o.Float) → Bool → List (List Bytes)
  unfolding share_columns rank_fields rank_keys is_skipped obj_field_values
  markdown_rows [] enable_tpn = []
  markdown_rows (r ∷ rs) enable_tpn =
      let hs = headers r.kind enable_tpn in
      let rows = map (λ q. obj_field_values o q enable_tpn) (r ∷ rs) in
      skip_rows hs (r ∷ rs)
        (share_columns 0 (rank_fields r.kind) hs (map (rank_keys o) (r ∷ rs)) rows)

  abbrev table_of : List (Report o.Float) → Bool → (Bytes → Bool) → List Runes
  table_of [] enable_tpn filter = []
  table_of (r ∷ rs) enable_tpn filter =
      let title = filt filter (headers r.kind enable_tpn) in
      markdown_table (marked (rank_fields r.kind) title title)
        (map (filt filter) (markdown_rows (r ∷ rs) enable_tpn))

  -- `Markdown`, of cells of single-byte characters.
  unfoldable pub markdown : List (Report o.Float) → Bool → Bytes → (Bytes → Bool) → List Runes
  unfolding sort_reports filt marked markdown_rows markdown_table headers
  markdown reports enable_tpn order filter =
      table_of (sort_reports o reports order) enable_tpn filter
