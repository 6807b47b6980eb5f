-- ===== src/Report/Cells.antt =====
-- benchcli-go/report/parsing.go: the headers and the cells of the report tables.
pub mod Rows
use go_http_benchmark.Prelude.{
  ℕ, zero, suc, ◌-◌, ◌^◌, ◌%◌, Bool, true, false, not, ◌&&◌, ◌||◌, List, [], ◌∷◌, ◌++◌, Option,
  none, some, Bytes, codes, equal, length, if◌then◌else◌, ℤ, pos, negsuc,
}
use go_http_benchmark.Golib.Strconv.{itoa}
use go_http_benchmark.Golib.Text.{trim_prefix}
use go_http_benchmark.Report.Columns.{
  Column, Kind, columns, Format, plain, client, mem, duration, cpu, hidden_fmt,
}
use go_http_benchmark.Report.Outside.{Outside}

-- A field's value; of the profiles no cell is made.
pub data Value (F : Type 0) : Type 0 where
  text : Bytes → Value F
  int : ℤ → Value F
  uint : ℕ → Value F
  float : F → Value F
  bool : Bool → Value F
  bytes : Option Bytes → Value F

-- A report: its struct, and the values of its fields in the order of their declaration.
pub record Report (F : Type 0) : Type 0 where
  pub kind : Kind
  pub values : List (Value F)

-- `tableColumn`.
unfoldable pub table_column : Column → Bool → Bool
table_column c enable_tpn =
    if equal c.md (codes "-") || not (equal c.summary []) then false else enable_tpn || not c.tpn

-- The function `headers` of `Init`.
unfoldable pub headers_of : List Column → Bool → List Bytes
headers_of [] enable_tpn = []
headers_of (c ∷ cs) enable_tpn =
    if table_column c enable_tpn then c.md ∷ headers_of cs enable_tpn else headers_of cs enable_tpn

-- The headers that `Init` gives each kind of report.
unfoldable pub headers : Kind → Bool → List Bytes
unfolding headers_of table_column
headers kind enable_tpn = headers_of (columns kind) enable_tpn

-- `clientName`.
unfoldable pub client_name : Bytes → Bytes
client_name name =
    if equal name (codes "benchcli-go")
    then codes "go-net"
    else if equal name (codes "benchcli-rust")
    then codes "rust-tokio"
    else trim_prefix name (codes "benchcli-")

-- `fmt.Sprintf("%v", v)` of an integer and of a Boolean.
abbrev pub int_text : ℤ → Bytes
int_text (pos n) = itoa n
int_text (negsuc n) = b'-' ∷ itoa (suc n)

abbrev bool_text : Bool → Bytes
bool_text true = codes "true"
bool_text false = codes "false"

-- `uint64(v)` of an `int64`.
abbrev to_uint64 : ℤ → ℕ
to_uint64 (pos n) = n % 2 ^ 64
to_uint64 (negsuc n) = 2 ^ 64 - suc n

module _ (o : Outside) where
  -- The switch on the field's type.
  abbrev pub typed_text : Value o.Float → Bytes
  typed_text (text s) = s
  typed_text (float x) = o.two_decimals x
  typed_text (int n) = int_text n
  typed_text (uint n) = itoa n
  typed_text (bool b) = bool_text b
  typed_text (bytes b) = []

  abbrev pub client_text : Value o.Float → Bytes
  client_text (text s) = client_name s
  client_text v = []

  abbrev pub mem_text : Value o.Float → Bytes
  mem_text (int n) = o.mem_string (to_uint64 n)
  mem_text (uint n) = o.mem_string n
  mem_text v = []

  abbrev pub duration_text : Value o.Float → Bytes
  duration_text (int n) = o.time_string n
  duration_text v = []

  abbrev format_text : Format → Value o.Float → Bytes
  format_text client v = client_text v
  format_text mem v = mem_text v
  format_text duration v = duration_text v
  format_text plain v = typed_text v
  format_text cpu v = typed_text v
  format_text hidden_fmt v = typed_text v

  -- `cellString`. Only fields of type `string` are tagged fmt:"client", only `int64` ones
  -- fmt:"duration".
  unfoldable pub cell_string : Column → Value o.Float → Bytes
  cell_string c v = format_text c.fmt v

  fields_of : List Column → List (Value o.Float) → Bool → List Bytes
  unfolding cell_string table_column
  fields_of [] vs enable_tpn = []
  fields_of (c ∷ cs) [] enable_tpn = []
  fields_of (c ∷ cs) (v ∷ vs) enable_tpn =
      if table_column c enable_tpn
      then cell_string c v ∷ fields_of cs vs enable_tpn
      else fields_of cs vs enable_tpn

  -- `ObjFieldValues`, which is `Fields` of every report.
  unfoldable pub obj_field_values : Report o.Float → Bool → List Bytes
  unfolding fields_of
  obj_field_values r enable_tpn = fields_of (columns r.kind) r.values enable_tpn
