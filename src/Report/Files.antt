-- ===== src/Report/Files.antt =====
-- benchcli-go/report/reporter.go: the report files. A disk gives the content of the files by their
-- names.
pub mod Names
pub mod Writes
pub mod RoundTrip
pub mod Generate
use go_http_benchmark.Prelude.{
  ℕ, Bool, true, false, List, [], ◌∷◌, ◌++◌, Option, none, some, Bytes, codes, equal, replicate,
  if◌then◌else◌, pos, map,
}
use go_http_benchmark.Config.Ports.{framework_lang, framework_list}
use go_http_benchmark.Report.Cells.{Report, Value, text, int, uint, float, bool, bytes}
use go_http_benchmark.Report.Columns.{
  Column, Kind, GoType, columns, connections, bench_echo, bench_rate,
}
use go_http_benchmark.Report.Columns
use go_http_benchmark.Report.Outside.{Outside}
use go_http_benchmark.Report.Plain.{type_name}
use go_http_benchmark.Report.Ratios.{Ratios, fill_tps}
use go_http_benchmark.Report.Summary.{summary}
use go_http_benchmark.Report.Markdown.{markdown}

-- `Filename`.
unfoldable pub filename : Bytes → Bytes → Bytes → Bytes
filename base preffix suffix = codes "./output/report/" ++ (preffix ++ (base ++ suffix))

-- `logging.LongLine`.
abbrev long_line : Bytes
long_line = replicate 100 b'-' ++ codes "\n"

-- `ConsoleSection`.
unfoldable pub console_section : Bytes → Bytes → Bytes
console_section name table =
    long_line ++ (codes "[" ++ (name ++ (codes "]\n\n" ++ (or_note table ++ codes "\n"))))
  where
    or_note : Bytes → Bytes
    or_note [] = codes "(no results)\n"
    or_note (c ∷ cs) = c ∷ cs

abbrev pub Disk : Type 0
Disk = Bytes → Option Bytes

-- What comes of the writes: of each, by the file's name and its new content, whether it works; where
-- it does not, what is left under the name.
pub data Outcome : Type 0 where
  works : Outcome
  fails : Option Bytes → Outcome

-- What a save leaves: the disk, and whether there is no error.
pub record Saved : Type 0 where
  pub disk : Disk
  pub saved : Bool

abbrev pub put : Bytes → Option Bytes → Disk → Disk
put name content disk n = if equal name n then content else disk n

-- `os.WriteFile`.
unfoldable pub write_file : (Bytes → Bytes → Outcome) → Bytes → Bytes → Disk → Saved
write_file outcome name content disk = after (outcome name content)
  where
    after : Outcome → Saved
    after works = record { disk = put name (some content) disk; saved = true }
    after (fails left) = record { disk = put name left disk; saved = false }

-- `Name` of the reports.
unfoldable pub name : Kind → Bytes → Bytes
name kind framework = framework ++ (b'-' ∷ type_name kind)

abbrev pub json_name : Kind → Bytes → Bytes → Bytes → Bytes
json_name kind framework preffix suffix =
    filename (name kind framework) preffix (suffix ++ codes ".json")

module _ {F : Type 0} where
  abbrev first_text : List (Value F) → Bytes
  first_text (text s ∷ vs) = s
  first_text vs = []

  -- The field `Framework`, which is the first.
  abbrev pub framework_of : Report F → Bytes
  framework_of r = first_text r.values

  abbrev two_last : List (Value F) → Option Bytes × Option Bytes
  two_last [] = (none, none)
  two_last (bytes c ∷ bytes m ∷ []) = (c, m)
  two_last (v ∷ vs) = two_last vs

  -- `PprofCPU` and `PprofMEM`: the last two fields of a report that has them.
  unfoldable pub pprof_cpu : Report F → Option Bytes
  pprof_cpu r = (two_last r.values).0

  unfoldable pub pprof_mem : Report F → Option Bytes
  pprof_mem r = (two_last r.values).1

  -- The field of a report of the given type, as `create` leaves it.
  abbrev zero_value : F → GoType → Value F
  zero_value z Columns.text = text []
  zero_value z Columns.int = int (pos 0)
  zero_value z Columns.uint = uint 0
  zero_value z Columns.float = float z
  zero_value z Columns.bool = bool false
  zero_value z Columns.bytes = bytes none

  abbrev created_values : F → Bytes → List Column → List (Value F)
  created_values z framework (c ∷ d ∷ cs) =
      text framework ∷ text (framework_lang framework) ∷ map (λ k. zero_value z k.go_type) cs
  created_values z framework cs = []

  -- `create`: a report with the framework and its language only.
  unfoldable pub created : F → Kind → Bytes → Report F
  created z kind framework = record {
    kind = kind;
    values = created_values z framework (columns kind);
  }

-- encoding/json, at reports; `none` is an error. `unmarshal` fills in a report.
pub record Json (F : Type 0) : Type 0 where
  pub marshal : Report F → Option Bytes
  pub unmarshal : Bytes → Report F → Option (Report F)

module _ {F : Type 0} (json : Json F) (outcome : Bytes → Bytes → Outcome) where
  abbrev pub write_profile : Bytes → Option Bytes → Disk → Saved
  write_profile filename none disk = record { disk = disk; saved = true }
  write_profile filename (some profile) disk = write_file outcome filename profile disk

  abbrev pub write_json : Bytes → Option Bytes → Disk → Saved
  write_json filename none disk = record { disk = disk; saved = false }
  write_json filename (some b) disk = write_file outcome filename b disk

  -- A return with the error, or the rest of the function.
  abbrev pub and_then : Saved → (Disk → Saved) → Saved
  and_then s rest = if s.saved then rest s.disk else s

  -- `ToFile`.
  unfoldable pub to_file : Report F → Bytes → Bytes → Disk → Saved
  unfolding pprof_cpu pprof_mem write_file filename name
  to_file r preffix suffix disk =
      let base = name r.kind (framework_of r) in
      and_then
        (write_profile (filename base preffix (suffix ++ codes ".pprof.cpu")) (pprof_cpu r) disk)
        (λ disk1.
          and_then
            (write_profile (filename base preffix (suffix ++ codes ".pprof.mem")) (pprof_mem r)
              disk1)
            (λ disk2.
              write_json (filename base preffix (suffix ++ codes ".json")) (json.marshal r) disk2))

  -- A run's calls of `saveReport`, which goes on where a save fails.
  unfoldable pub save_reports : List (Report F) → Bytes → Bytes → Disk → Disk
  unfolding to_file
  save_reports [] preffix suffix disk = disk
  save_reports (r ∷ rs) preffix suffix disk =
      save_reports rs preffix suffix (to_file r preffix suffix disk).disk

module _ {F : Type 0} where
  abbrev pub append_read : Option (Report F) → List (Report F) → List (Report F)
  append_read none rs = rs
  append_read (some r) rs = r ∷ rs

module _ {F : Type 0} (json : Json F) where
  abbrev pub unmarshal_file : Report F → Option Bytes → Option (Report F)
  unmarshal_file item none = none
  unmarshal_file item (some b) = json.unmarshal b item

  -- The loop of `ReadReports`.
  unfoldable pub read_from : F → Kind → Bytes → Bytes → Disk → List Bytes → List (Report F)
  unfolding filename name created
  read_from z kind preffix suffix disk [] = []
  read_from z kind preffix suffix disk (v ∷ vs) =
      let item = created z kind v in
      append_read
        (unmarshal_file item
          (disk (filename (name item.kind (framework_of item)) preffix (suffix ++ codes ".json"))))
        (read_from z kind preffix suffix disk vs)

  -- `ReadReports`, with a `create` for the kind of report.
  unfoldable pub read_reports : F → Kind → Bytes → Bytes → Disk → List (Report F)
  unfolding read_from
  read_reports z kind preffix suffix disk = read_from z kind preffix suffix disk framework_list
