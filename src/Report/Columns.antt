-- ===== src/Report/Columns.antt =====
-- The three report structs: their fields with the tags that reflection reads off them.
use go_http_benchmark.Prelude.{
  ℕ, Bool, true, false, List, [], ◌∷◌, Option, none, some, Bytes, codes,
}
use Prim.Native.String.{String}

-- The Go types of the fields.
pub data GoType : Type 0 where
  text int uint float bool bytes : GoType

-- The tag `fmt`; `plain` stands for none, and `hidden_fmt` for "-".
pub data Format : Type 0 where
  plain client mem duration cpu hidden_fmt : Format

-- A field: its type and its tags. `summary` is empty where there is no such tag.
pub record Column : Type 0 where
  pub go_type : GoType
  pub md : Bytes
  pub fmt : Format
  pub tpn : Bool
  pub summary : Bytes
  pub rank : Option ℕ

abbrev column : GoType → String → Format → Bool → String → Option ℕ → Column
column t md fmt tpn summary rank = record {
  go_type = t;
  md = codes md;
  fmt = fmt;
  tpn = tpn;
  summary = codes summary;
  rank = rank;
}

-- The fields of the struct, in the order of their declaration.
abbrev pub bench_rate_columns : List Column
bench_rate_columns =
    column text "Framework" plain false "" none
    ∷ column text "Lang" plain false "" none
    ∷ column text "Client" client false "Client" none
    ∷ column int "Duration" duration false "Rate Duration" none
    ∷ column int "TPS" plain false "" (some 1)
    ∷ column float "CPU EER" plain false "" (some 2)
    ∷ column float "MEM EER" plain false "" (some 3)
    ∷ column int "Req Sent" plain false "" none
    ∷ column int "Bytes Sent" mem false "" none
    ∷ column int "Resp Recv" plain false "" none
    ∷ column int "Bytes Recv" mem false "" none
    ∷ column int "Conns" plain false "Conns" none
    ∷ column int "Concurrency" plain false "Rate Concurrency" none
    ∷ column int "SendRate" plain false "Rate SendRate" none
    ∷ column int "Pipeline" plain false "Rate Pipeline" none
    ∷ column int "Payload" plain false "Payload" none
    ∷ column bool "Pprof" plain false "Rate Pprof" none
    ∷ column float "-" cpu false "" none
    ∷ column float "CPU Avg" cpu false "" none
    ∷ column float "CPU Max" cpu false "" none
    ∷ column uint "-" mem false "" none
    ∷ column uint "MEM Avg" mem false "" none
    ∷ column uint "MEM Max" mem false "" none
    ∷ column bool "-" hidden_fmt false "" none
    ∷ column bytes "-" hidden_fmt false "" none
    ∷ column bytes "-" hidden_fmt false "" none
    ∷ []

-- The fields of the struct, in the order of their declaration.
abbrev pub bench_echo_columns : List Column
bench_echo_columns =
    column text "Framework" plain false "" none
    ∷ column text "Lang" plain false "" none
    ∷ column text "Client" client false "Client" none
    ∷ column int "TPS" plain false "" (some 1)
    ∷ column float "CPU EER" plain false "" (some 2)
    ∷ column float "MEM EER" plain false "" (some 3)
    ∷ column int "Min" duration true "" none
    ∷ column int "Avg" duration true "" none
    ∷ column int "Max" duration true "" none
    ∷ column int "-" duration true "" none
    ∷ column int "-" duration true "" none
    ∷ column int "-" duration true "" none
    ∷ column int "TP95" duration true "" none
    ∷ column int "TP99" duration true "" none
    ∷ column int "Used" duration false "" none
    ∷ column int "Total" plain false "Echo Total" none
    ∷ column int "Success" plain false "" none
    ∷ column int "Failed" plain false "" none
    ∷ column int "Conns" plain false "Conns" none
    ∷ column int "Concurrency" plain false "Echo Concurrency" none
    ∷ column int "Payload" plain false "Payload" none
    ∷ column bool "Pprof" plain false "Echo Pprof" none
    ∷ column float "-" cpu false "" none
    ∷ column float "CPU Avg" cpu false "" none
    ∷ column float "CPU Max" cpu false "" none
    ∷ column uint "-" mem false "" none
    ∷ column uint "MEM Avg" mem false "" none
    ∷ column uint "MEM Max" mem false "" none
    ∷ column bytes "-" hidden_fmt false "" none
    ∷ column bytes "-" hidden_fmt false "" none
    ∷ []

-- The fields of the struct, in the order of their declaration.
abbrev pub connections_columns : List Column
connections_columns =
    column text "Framework" plain false "" none
    ∷ column text "Lang" plain false "" none
    ∷ column text "Client" client false "Client" none
    ∷ column int "TPS" plain false "" (some 1)
    ∷ column int "Min" duration true "" none
    ∷ column int "Avg" duration true "" none
    ∷ column int "Max" duration true "" none
    ∷ column int "-" duration true "" none
    ∷ column int "-" duration true "" none
    ∷ column int "-" duration true "" none
    ∷ column int "TP95" duration true "" none
    ∷ column int "TP99" duration true "" none
    ∷ column int "Used" duration false "" none
    ∷ column int "Total" plain false "" none
    ∷ column int "Success" plain false "" none
    ∷ column int "Failed" plain false "" none
    ∷ column int "Concurrency" plain false "Dial Concurrency" none
    ∷ []

pub data Kind : Type 0 where
  connections bench_echo bench_rate : Kind

abbrev pub columns : Kind → List Column
columns connections = connections_columns
columns bench_echo = bench_echo_columns
columns bench_rate = bench_rate_columns
