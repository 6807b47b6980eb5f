-- ===== src/Report/Plain.antt =====
-- benchcli-go/report/parsing.go: a report as lines of text, which `String` of every report gives.
use go_http_benchmark.Prelude.{
  ℕ, ◌-◌, Bool, false, not, ◌||◌, List, [], ◌∷◌, ◌++◌, Bytes, codes, equal, length, replicate,
  if◌then◌else◌, ltb, map,
}
use go_http_benchmark.Report.Cells.{
  Report, Value, float, client_text, mem_text, duration_text, typed_text,
}
use go_http_benchmark.Report.Columns.{
  Column, Kind, columns, Format, plain, client, mem, duration, cpu, hidden_fmt, connections,
  bench_echo, bench_rate,
}
use go_http_benchmark.Report.Outside.{Outside}

-- `Type` of the reports.
abbrev pub type_name : Kind → Bytes
type_name connections = codes "Connections"
type_name bench_echo = codes "BenchEcho"
type_name bench_rate = codes "BenchPipeline"

-- The tests in front of the loop's body.
unfoldable pub is_shown : Column → Bool → Bool
is_shown c enable_tpn = if equal c.md (codes "-") then false else enable_tpn || not c.tpn

-- `v += " "` up to a length.
abbrev pub padded : ℕ → Bytes → Bytes
padded n s = s ++ replicate (n - length s) b' '

abbrev longest : ℕ → List Bytes → ℕ
longest n [] = n
longest n (h ∷ hs) = longest (if ltb n (length h) then length h else n) hs

abbrev type_header : Bytes
type_header = codes "BenchType"

-- The headers of the fields that are shown.
unfoldable pub shown_headers : List Column → Bool → List Bytes
unfolding is_shown
shown_headers [] enable_tpn = []
shown_headers (c ∷ cs) enable_tpn =
    if is_shown c enable_tpn
    then c.md ∷ shown_headers cs enable_tpn
    else shown_headers cs enable_tpn

-- The last loop: a line for each header, the type's in front of the framework's.
unfoldable pub lines_from : Bytes → Bytes → List Bytes → List Bytes → Bytes
lines_from first framework [] vs = []
lines_from first framework (h ∷ hs) [] = []
lines_from first framework (h ∷ hs) (v ∷ vs) =
    (if equal h framework then first else [])
    ++ (h ++ (codes ": " ++ (v ++ newline_before hs (lines_from first framework hs vs))))
  where
    newline_before : List Bytes → Bytes → Bytes
    newline_before [] rest = rest
    newline_before (q ∷ qs) rest = b'\n' ∷ rest

-- `frameworkHeader`, of the padded headers.
abbrev framework_header : ℕ → List Bytes → Bytes
framework_header n [] = []
framework_header n (h ∷ hs) =
    if equal h (codes "Framework") then padded n h else framework_header n hs

module _ (o : Outside) where
  abbrev cpu_text : Value o.Float → Bytes
  cpu_text (float x) = o.two_decimals x ++ codes "%"
  cpu_text v = []

  abbrev value_text : Format → Value o.Float → Bytes
  value_text client v = client_text o v
  value_text cpu v = cpu_text v
  value_text mem v = mem_text o v
  value_text duration v = duration_text o v
  value_text plain v = typed_text o v
  value_text hidden_fmt v = []

  -- The values of the fields that are shown. A field tagged fmt:"-" is tagged md:"-" as well, so
  -- none of those has a value here.
  unfoldable pub shown_values : List Column → List (Value o.Float) → Bool → List Bytes
  unfolding is_shown
  shown_values [] vs enable_tpn = []
  shown_values (c ∷ cs) [] enable_tpn = []
  shown_values (c ∷ cs) (v ∷ vs) enable_tpn =
      if is_shown c enable_tpn
      then value_text c.fmt v ∷ shown_values cs vs enable_tpn
      else shown_values cs vs enable_tpn

  -- `ObjString`.
  unfoldable pub obj_string : Report o.Float → Bool → Bytes
  unfolding shown_headers shown_values lines_from
  obj_string r enable_tpn =
      let hs = shown_headers (columns r.kind) enable_tpn in
      let n = longest (length type_header) hs in
      let first = padded n type_header ++ (codes ": " ++ (type_name r.kind ++ codes "\n")) in
      lines_from first (framework_header n hs) (map (padded n) hs)
        (shown_values (columns r.kind) r.values enable_tpn)
