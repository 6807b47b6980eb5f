-- ===== src/Tests/Files.antt =====
-- The report files.
use go_http_benchmark.Prelude.{
  ℕ, zero, suc, ◌/◌, ◌==◌, ◌≡◌, refl, sym, ap, ◌∙◌, true, false, List, [], ◌∷◌, ◌++◌, Option, none,
  some, Bytes, codes, length, take, drop, take-append, drop-append, pos, negsuc, if◌then◌else◌,
}
use go_http_benchmark.Config.Ports.{framework_list}
use go_http_benchmark.Report.Cells.{Report, Value, text, int, uint, float, bool, bytes}
use go_http_benchmark.Report.Columns.{bench_echo, Kind}
use go_http_benchmark.Report.Files.{Json, Disk, save_reports, read_reports}
use go_http_benchmark.Report.Files.RoundTrip.{IsJson, filled_in, filled_values}
use go_http_benchmark.Report.Files.RoundTrip.Saved.{AreSound, all_found, read_reports-save_reports}
use go_http_benchmark.Report.Files.Writes.{all_work}
use go_http_benchmark.Report.Made.{
  Calculator, PsCounter, ConnectionsRun, EchoRun, RateRun, connections_report, bench_echo_report,
  bench_rate_report,
}
use go_http_benchmark.Report.Made.Sound.{IsNamed, IsSound, reports-IsSound}
use go_http_benchmark.Report.Ratios.{Ratios}
use go_http_benchmark.Tests.Report.{whole}

abbrev whole_ratios : Ratios whole
whole_ratios = record {
  divide = λ a b. a / b;
  is_nan = λ v. false;
  is_inf = λ v. false;
  is_at_most_zero = λ v. v == 0;
  mebi = 1048576;
  second = 1000000000;
  floor = pos;
}

-- A coding of reports, in place of JSON: a tag for each value, and its content.
abbrev code_of : Value ℕ → Bytes → Bytes
code_of (text s) b = 0 ∷ length s ∷ (s ++ b)
code_of (int (pos n)) b = 1 ∷ n ∷ b
code_of (int (negsuc n)) b = 2 ∷ n ∷ b
code_of (uint n) b = 3 ∷ n ∷ b
code_of (float x) b = 4 ∷ x ∷ b
code_of (bool true) b = 5 ∷ 1 ∷ b
code_of (bool false) b = 5 ∷ 0 ∷ b
code_of (bytes p) b = 6 ∷ 0 ∷ b

abbrev code_all : List (Value ℕ) → Bytes
code_all [] = []
code_all (v ∷ vs) = code_of v (code_all vs)

abbrev value_of : ℕ → ℕ → Value ℕ → Value ℕ
value_of tag n w =
    if tag == 1
    then int (pos n)
    else if tag == 2
    then int (negsuc n)
    else if tag == 3
    then uint n
    else if tag == 4
    then float n
    else if tag == 5
    then bool (n == 1)
    else w

abbrev decode_all : List (Value ℕ) → Bytes → List (Value ℕ)
decode_all [] b = []
decode_all (w ∷ ws) [] = []
decode_all (w ∷ ws) (tag ∷ []) = []
decode_all (w ∷ ws) (zero ∷ n ∷ b) = text (take n b) ∷ decode_all ws (drop n b)
decode_all (w ∷ ws) (suc t ∷ n ∷ b) = value_of (suc t) n w ∷ decode_all ws b

abbrev coded : Json ℕ
coded = record {
  marshal = λ r. some (code_all r.values);
  unmarshal = λ b item. some (record { kind = item.kind; values = decode_all item.values b });
}

decode_all-code_all : (vs ws : List (Value ℕ)) → decode_all ws (code_all vs) ≡ filled_values vs ws
decode_all-code_all [] [] = refl
decode_all-code_all [] (w ∷ ws) = refl
decode_all-code_all (v ∷ vs) [] = refl
decode_all-code_all (text s ∷ vs) (w ∷ ws) =
    rw (take-append s (code_all vs), drop-append s (code_all vs), decode_all-code_all vs ws) refl
decode_all-code_all (int (pos n) ∷ vs) (w ∷ ws) =
    ap (λ (r : List (Value ℕ)). int (pos n) ∷ r) (decode_all-code_all vs ws)
decode_all-code_all (int (negsuc n) ∷ vs) (w ∷ ws) =
    ap (λ (r : List (Value ℕ)). int (negsuc n) ∷ r) (decode_all-code_all vs ws)
decode_all-code_all (uint n ∷ vs) (w ∷ ws) =
    ap (λ (r : List (Value ℕ)). uint n ∷ r) (decode_all-code_all vs ws)
decode_all-code_all (float x ∷ vs) (w ∷ ws) =
    ap (λ (r : List (Value ℕ)). float x ∷ r) (decode_all-code_all vs ws)
decode_all-code_all (bool true ∷ vs) (w ∷ ws) =
    ap (λ (r : List (Value ℕ)). bool true ∷ r) (decode_all-code_all vs ws)
decode_all-code_all (bool false ∷ vs) (w ∷ ws) =
    ap (λ (r : List (Value ℕ)). bool false ∷ r) (decode_all-code_all vs ws)
decode_all-code_all (bytes p ∷ vs) (w ∷ ws) =
    ap (λ (r : List (Value ℕ)). w ∷ r) (decode_all-code_all vs ws)

abbrev report_of : Kind → List (Value ℕ) → Report ℕ
report_of kind vs = record { kind = kind; values = vs }

abbrev or_none : Option Bytes → Bytes
or_none none = []
or_none (some b) = b

unmarshal-marshal :
    (r item : Report ℕ) (b : Bytes)
    → r.kind ≡ item.kind
    → coded.marshal r ≡ some b
    → coded.unmarshal b item ≡ some (filled_in r item)
unmarshal-marshal r item b same e =
    ap (λ (c : Bytes). some (report_of item.kind (decode_all item.values c))) (sym (ap or_none e))
    ∙ (ap (λ (k : Kind). some (report_of k (decode_all item.values (code_all r.values)))) (sym same)
        ∙ ap (λ (vs : List (Value ℕ)). some (report_of r.kind vs))
            (decode_all-code_all r.values item.values))

coded-IsJson : IsJson whole whole_ratios coded
coded-IsJson = record {
  marshals = λ r h. (code_all r.values, refl);
  unmarshals = λ r item b h same e. unmarshal-marshal r item b same e;
}

abbrev some_counts : Calculator
some_counts = record {
  tps = pos 5;
  min = pos 1;
  avg = pos 2;
  max = pos 3;
  used = pos 9;
  success = pos 4;
  failed = pos 0;
  tpn = λ n. pos n;
}

abbrev gin_connections : ConnectionsRun
gin_connections = record {
  framework = codes "gin";
  num_connections = pos 4;
  concurrency = pos 2;
  enable_tpn = true;
  calculator = some_counts;
}

abbrev gin_echo : EchoRun
gin_echo = record {
  framework = codes "gin";
  conns = pos 4;
  concurrency = pos 2;
  payload = pos 8;
  total = pos 4;
  enable_tpn = false;
  calculator = some_counts;
  pprof_data_cpu = some (codes "cpu");
  pprof_data_mem = some (codes "mem");
}

abbrev gin_rate : RateRun
gin_rate = record {
  framework = codes "gin";
  duration = pos 1000000000;
  conns = pos 4;
  concurrency = pos 2;
  send_rate = pos 2;
  batch = pos 1;
  payload = pos 8;
  send_times = pos 8;
  send_bytes = pos 64;
  recv_times = pos 8;
  recv_bytes = pos 64;
  pprof_data_cpu = none;
  pprof_data_mem = none;
}

abbrev gin_samples : PsCounter ℕ
gin_samples = record {
  cpu_min = 1;
  cpu_avg = 2;
  cpu_max = 3;
  mem_rss_min = 1;
  mem_rss_avg = 2097152;
  mem_rss_max = 3;
}

reports-IsSound_example :
    IsSound whole whole_ratios (connections_report gin_connections)
    × IsSound whole whole_ratios (bench_echo_report whole whole_ratios gin_echo (some gin_samples))
    × IsSound whole whole_ratios (bench_rate_report whole whole_ratios gin_rate none)
    × IsNamed {F = ℕ} gin_connections.framework (connections_report gin_connections)
    × IsNamed {F = ℕ} gin_echo.framework
        (bench_echo_report whole whole_ratios gin_echo (some gin_samples))
    × IsNamed {F = ℕ} gin_rate.framework (bench_rate_report whole whole_ratios gin_rate none)
reports-IsSound_example =
    reports-IsSound whole whole_ratios gin_connections gin_echo gin_rate (some gin_samples) none
      refl refl refl refl (refl, refl, refl) tt

-- The reports of a run.
abbrev gin_reports : List (Report ℕ)
gin_reports =
    connections_report gin_connections
    ∷ bench_echo_report whole whole_ratios gin_echo (some gin_samples)
    ∷ bench_rate_report whole whole_ratios gin_rate none
    ∷ []

abbrev empty_disk : Disk
empty_disk name = none

gin_reports-AreSound :
    AreSound whole whole_ratios coded coded-IsJson (codes "") (codes "_1") gin_reports
gin_reports-AreSound =
    let (c, e, r, names_c, names_e, names_r) =
      reports-IsSound whole whole_ratios gin_connections gin_echo gin_rate (some gin_samples) none
        refl refl refl refl (refl, refl, refl) tt in
    (c, (e, (r, tt)))

read_reports-save_reports_example :
    read_reports coded 0 bench_echo
      (codes "")
      (codes "_1")
      (save_reports coded all_work gin_reports (codes "") (codes "_1") empty_disk)
    ≡ all_found whole whole_ratios coded coded-IsJson
        (codes "")
        (codes "_1")
        bench_echo
        gin_reports
        empty_disk
        framework_list
read_reports-save_reports_example =
    read_reports-save_reports whole whole_ratios coded coded-IsJson (codes "") (codes "_1")
      bench_echo gin_reports empty_disk gin_reports-AreSound
