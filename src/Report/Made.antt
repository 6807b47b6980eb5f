-- ===== src/Report/Made.antt =====
-- The reports that the three benchmarks make of their runs: `Report` of
-- benchcli-go/connections/connection.go, benchcli-go/benchecho/benchecho.go and
-- benchcli-go/benchrate/benchrate.go. The field `Pprof`, which `main` sets behind them, is false.
pub mod Sound
use go_http_benchmark.Prelude.{
  ℕ, Bool, false, List, [], ◌∷◌, ◌++◌, Option, none, some, Bytes, codes, if◌then◌else◌, ℤ, pos,
}
use go_http_benchmark.Config.Ports.{framework_lang}
use go_http_benchmark.Report.Cells.{Report, Value, text, int, uint, float, bool, bytes}
use go_http_benchmark.Report.Columns.{connections, bench_echo, bench_rate}
use go_http_benchmark.Report.Outside.{Outside}
use go_http_benchmark.Report.Ratios.{Ratios, cpu_eer, mem_eer, rate_tps}

-- What the perf library's Calculator says of the operations that it ran.
pub record Calculator : Type 0 where
  pub tps : ℤ
  pub min : ℤ
  pub avg : ℤ
  pub max : ℤ
  pub used : ℤ
  pub success : ℤ
  pub failed : ℤ
  pub tpn : ℕ → ℤ

-- What the perf library's PSCounter says of the server's process.
pub record PsCounter (F : Type 0) : Type 0 where
  pub cpu_min : F
  pub cpu_avg : F
  pub cpu_max : F
  pub mem_rss_min : ℕ
  pub mem_rss_avg : ℕ
  pub mem_rss_max : ℕ

-- The fields of Connections that its report shows.
pub record ConnectionsRun : Type 0 where
  pub framework : Bytes
  pub num_connections : ℤ
  pub concurrency : ℤ
  pub enable_tpn : Bool
  pub calculator : Calculator

-- The fields of BenchEcho that its report shows.
pub record EchoRun : Type 0 where
  pub framework : Bytes
  pub conns : ℤ
  pub concurrency : ℤ
  pub payload : ℤ
  pub total : ℤ
  pub enable_tpn : Bool
  pub calculator : Calculator
  pub pprof_data_cpu : Option Bytes
  pub pprof_data_mem : Option Bytes

-- The fields of BenchRate that its report shows.
pub record RateRun : Type 0 where
  pub framework : Bytes
  pub duration : ℤ
  pub conns : ℤ
  pub concurrency : ℤ
  pub send_rate : ℤ
  pub batch : ℤ
  pub payload : ℤ
  pub send_times : ℤ
  pub send_bytes : ℤ
  pub recv_times : ℤ
  pub recv_bytes : ℤ
  pub pprof_data_cpu : Option Bytes
  pub pprof_data_mem : Option Bytes

abbrev tpn_values : {F : Type 0} → Bool → Calculator → List (Value F) → List (Value F)
tpn_values enable c vs =
    int (if enable then c.tpn 50 else pos 0)
    ∷ int (if enable then c.tpn 75 else pos 0)
    ∷ int (if enable then c.tpn 90 else pos 0)
    ∷ int (if enable then c.tpn 95 else pos 0)
    ∷ int (if enable then c.tpn 99 else pos 0)
    ∷ vs

-- `psInfo`: from the run's source where it has one, else from the server.
unfoldable pub ps_info {ℓ} : {A : Type ℓ} → Option (Option A) → Option A → Option A
ps_info none from_server = from_server
ps_info (some from_source) from_server = from_source

-- `Report` of Connections.
unfoldable pub connections_report : {F : Type 0} → ConnectionsRun → Report F
connections_report run = record {
  kind = connections;
  values =
      text run.framework
      ∷ text (framework_lang run.framework)
      ∷ text (codes "benchcli-go")
      ∷ int run.calculator.tps
      ∷ int run.calculator.min
      ∷ int run.calculator.avg
      ∷ int run.calculator.max
      ∷ tpn_values run.enable_tpn run.calculator (
          int run.calculator.used
          ∷ int run.num_connections
          ∷ int run.calculator.success
          ∷ int run.calculator.failed
          ∷ int run.concurrency
          ∷ []);
}

module _ (o : Outside) (f : Ratios o) where
  -- The fields of a report where there is no PSCounter.
  abbrev no_counter : PsCounter o.Float
  no_counter = record {
    cpu_min = o.zero_float;
    cpu_avg = o.zero_float;
    cpu_max = o.zero_float;
    mem_rss_min = 0;
    mem_rss_avg = 0;
    mem_rss_max = 0;
  }

  abbrev counter_or_zero : Option (PsCounter o.Float) → PsCounter o.Float
  counter_or_zero none = no_counter
  counter_or_zero (some p) = p

  abbrev cpu_eer_of : o.Float → Option (PsCounter o.Float) → o.Float
  cpu_eer_of tps none = o.zero_float
  cpu_eer_of tps (some p) = cpu_eer o f tps p.cpu_avg

  abbrev mem_eer_of : o.Float → Option (PsCounter o.Float) → o.Float
  mem_eer_of tps none = o.zero_float
  mem_eer_of tps (some p) = mem_eer o f tps p.mem_rss_avg

  abbrev counter_values : PsCounter o.Float → List (Value o.Float) → List (Value o.Float)
  counter_values p vs =
      float p.cpu_min
      ∷ float p.cpu_avg
      ∷ float p.cpu_max
      ∷ uint p.mem_rss_min
      ∷ uint p.mem_rss_avg
      ∷ uint p.mem_rss_max
      ∷ vs

  -- `Report` of BenchEcho, with what `psInfo` gives.
  unfoldable pub bench_echo_report : EchoRun → Option (PsCounter o.Float) → Report o.Float
  bench_echo_report run counter = record {
    kind = bench_echo;
    values =
        text run.framework
        ∷ text (framework_lang run.framework)
        ∷ text (codes "benchcli-go")
        ∷ int run.calculator.tps
        ∷ float (cpu_eer_of (o.of_int run.calculator.tps) counter)
        ∷ float (mem_eer_of (o.of_int run.calculator.tps) counter)
        ∷ int run.calculator.min
        ∷ int run.calculator.avg
        ∷ int run.calculator.max
        ∷ tpn_values run.enable_tpn run.calculator (
            int run.calculator.used
            ∷ int run.total
            ∷ int run.calculator.success
            ∷ int run.calculator.failed
            ∷ int run.conns
            ∷ int run.concurrency
            ∷ int run.payload
            ∷ bool false
            ∷ counter_values (counter_or_zero counter)
                (bytes run.pprof_data_cpu ∷ bytes run.pprof_data_mem ∷ []));
  }

  -- `Report` of BenchRate, with what `psInfo` gives.
  unfoldable pub bench_rate_report : RateRun → Option (PsCounter o.Float) → Report o.Float
  bench_rate_report run counter = record {
    kind = bench_rate;
    values =
        text run.framework
        ∷ text (framework_lang run.framework)
        ∷ text (codes "benchcli-go")
        ∷ int run.duration
        ∷ int (f.floor (rate_tps o f run.recv_times run.duration))
        ∷ float (cpu_eer_of (rate_tps o f run.recv_times run.duration) counter)
        ∷ float (mem_eer_of (rate_tps o f run.recv_times run.duration) counter)
        ∷ int run.send_times
        ∷ int run.send_bytes
        ∷ int run.recv_times
        ∷ int run.recv_bytes
        ∷ int run.conns
        ∷ int run.concurrency
        ∷ int run.send_rate
        ∷ int run.batch
        ∷ int run.payload
        ∷ bool false
        ∷ counter_values (counter_or_zero counter)
            (bool false ∷ bytes run.pprof_data_cpu ∷ bytes run.pprof_data_mem ∷ []);
  }
