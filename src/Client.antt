-- ===== src/Client.antt =====
-- benchcli-go/client.go: what a run of the client does, in order, from its flags.
pub mod Run
pub mod Saves
use go_http_benchmark.Prelude.{
  ℕ, zero, suc, ◌+◌, ◌-◌, ◌*◌, ◌^◌, ◌%◌, max, Bool, true, false, not, ◌&&◌, List, [], ◌∷◌, ◌++◌,
  Option, none, some, Bytes, codes, equal, ltb, if◌then◌else◌, ℤ, pos, negsuc, neg,
}
use go_http_benchmark.BenchRate.Start
use go_http_benchmark.Config.Ports.{
  get_framework_benchmark_ports, has_pprof, supports_pipeline, framework_lang,
}
use go_http_benchmark.Config.Sampling.{Setup, validate_ps_mode}
use go_http_benchmark.Connections
use go_http_benchmark.Golib.Strconv.{int_limit}
use go_http_benchmark.Protocol.Batch.{PipelineError, validate_pipeline}
use go_http_benchmark.Report.Cells.{Report, text, int, uint, float, bool, bytes, int_text}
use go_http_benchmark.Report.Columns.{Kind, connections, bench_echo, bench_rate}
use go_http_benchmark.Report.Ranking.{validate_sort}

-- The flags; durations are in nanoseconds where the flag is one.
pub record Flags : Type 0 where
  pub framework : Bytes
  pub ip : Bytes
  pub num_connections : ℤ
  pub dial_concurrency : ℤ
  pub dial_timeout : ℤ
  pub dial_retries : ℤ
  pub dial_retry_interval : ℤ
  pub payload : ℤ
  pub ps_mode : Bytes
  pub echo_pprof : Bool
  pub echo_pprof_duration : ℤ
  pub rate_enabled : Bool
  pub rate_concurrency : ℤ
  pub rate_duration : ℤ
  pub rate_send_rate : ℤ
  pub rate_batch_size : ℤ
  pub rate_pipeline : ℤ
  pub rate_pprof : Bool
  pub rate_pprof_duration : ℤ
  pub gen_report : Bool
  pub report_sort : Bytes

-- What `logging.Fatalf` ends the process for.
pub data Reason : Type 0 where
  wrong_sort : Bytes → Reason
  wrong_ps_mode : Bytes → Reason
  wrong_pipeline : PipelineError → Reason
  unknown_framework : Bytes → Reason
  no_connections : Reason

-- Where the profiles of the server are fetched from.
pub record Profiles : Type 0 where
  pub cpu : Bytes
  pub mem : Bytes

-- The steps of `main` that have an effect outside: the benchmarks, with the profiles that each fetches,
-- the reports that are saved, and the deferred stops.
pub data Action : Type 0 where
  fatal : Reason → Action
  write_tables : Action
  run_connections : Connections.Settings → Action
  setup_ps : Action
  run_echo : Option Profiles → Action
  run_rate : Start.Settings → Option Profiles → Action
  save_report : Kind → Action
  save_skipped : Action
  stop_rate stop_echo stop_sampling stop_connections : Action

-- `int64`, of a product's residue.
abbrev to_int64 : ℕ → ℤ
to_int64 n = if ltb n (2 ^ 63) then pos n else neg (2 ^ 64 - n)

-- `time.Second * time.Duration(d)`
unfoldable pub seconds : ℤ → ℤ
seconds (pos n) = to_int64 ((n * 10 ^ 9) % 2 ^ 64)
seconds (negsuc n) = to_int64 ((2 ^ 64 - (suc n * 10 ^ 9) % 2 ^ 64) % 2 ^ 64)

-- `max(4096, *payload+1024)`
unfoldable pub read_buffer_size : ℤ → ℤ
read_buffer_size (pos n) = if ltb (n + 1024) (2 ^ 63) then pos (max 4096 (n + 1024)) else pos 4096
read_buffer_size (negsuc n) = pos 4096

-- `max(*rateSendRate, 1)`
abbrev pub at_least_one : ℤ → ℤ
at_least_one (pos n) = pos (max n 1)
at_least_one (negsuc n) = pos 1

abbrev dial_settings : Flags → Connections.Settings
dial_settings flags = record {
  num_connections = flags.num_connections;
  concurrency = flags.dial_concurrency;
  dial_timeout = flags.dial_timeout;
  retry_interval = flags.dial_retry_interval;
  retry_times = flags.dial_retries;
  read_buffer_size = read_buffer_size flags.payload;
}

-- What BenchRate is given; `conns` is how many connections there are.
abbrev pub rate_settings : Flags → ℕ → Start.Settings
rate_settings flags conns = record {
  ip = flags.ip;
  duration = seconds flags.rate_duration;
  concurrency = flags.rate_concurrency;
  send_rate = flags.rate_send_rate;
  batch_size = flags.rate_batch_size;
  pipeline = flags.rate_pipeline;
  payload = flags.payload;
  ps_interval = pos 0;
  conns = conns;
}

-- The URLs of the profiles, which stay empty where the server's address is not known.
unfoldable pub profiles_at : Bytes → ℤ → Profiles
profiles_at [] duration = record { cpu = []; mem = [] }
profiles_at (c ∷ addr) duration = record {
  cpu = (c ∷ addr) ++ (codes "/debug/pprof/profile?seconds=" ++ int_text duration);
  mem = (c ∷ addr) ++ codes "/debug/pprof/heap";
}

abbrev pub profiles_if : Bool → Profiles → Option Profiles
profiles_if true p = some p
profiles_if false p = none

-- From BenchPipeline on.
unfoldable pub rate_part : Flags → Setup → ℕ → List Action
unfolding supports_pipeline has_pprof profiles_at seconds
rate_part flags setup conns =
    if flags.rate_enabled && not (supports_pipeline flags.framework)
    then save_skipped ∷ []
    else if flags.rate_enabled
    then run_rate (rate_settings flags conns) (
        profiles_if (flags.rate_pprof && has_pprof flags.framework)
          (profiles_at setup.pprof_addr flags.rate_pprof_duration))
      ∷ save_report bench_rate
      ∷ stop_rate
      ∷ []
    else []

-- From the run of BenchEcho on, with the deferred stops behind.
unfoldable pub echo_part : Flags → Setup → ℕ → List Action
unfolding rate_part has_pprof profiles_at
echo_part flags setup conns =
    run_echo (
      profiles_if (flags.echo_pprof && has_pprof flags.framework)
        (profiles_at setup.pprof_addr flags.echo_pprof_duration))
    ∷ save_report bench_echo
    ∷ (rate_part flags setup conns ++ (stop_echo ∷ stop_sampling ∷ stop_connections ∷ []))

-- `init` of BenchEcho, at the start of its run, ends the process where no connection was dialed; no
-- deferred stop runs then. Otherwise its number of workers is positive.
abbrev pub unless_empty : ℕ → List Action → List Action
unless_empty zero actions = fatal no_connections ∷ []
unless_empty (suc n) actions = actions

-- From the dials on.
unfoldable pub benchmarks : Flags → Setup → ℕ → List Action
unfolding echo_part read_buffer_size
benchmarks flags setup conns =
    run_connections (dial_settings flags)
    ∷ save_report connections
    ∷ setup_ps
    ∷ unless_empty conns (echo_part flags setup conns)

abbrev pub fatal_if : Option Reason → List Action → List Action
fatal_if none actions = actions
fatal_if (some reason) actions = fatal reason ∷ []

abbrev pub sort_error : Flags → Option Reason
sort_error flags =
    if validate_sort flags.report_sort then none else some (wrong_sort flags.report_sort)

abbrev pub ps_mode_error : Flags → Option Reason
ps_mode_error flags =
    if validate_ps_mode flags.ps_mode then none else some (wrong_ps_mode flags.ps_mode)

abbrev pub pipeline_reason : Option PipelineError → Option Reason
pipeline_reason none = none
pipeline_reason (some e) = some (wrong_pipeline e)

abbrev pub pipeline_error : Flags → Option Reason
pipeline_error flags =
    if flags.rate_enabled
    then pipeline_reason (validate_pipeline flags.rate_pipeline (at_least_one flags.rate_send_rate))
    else none

abbrev ports_reason : Bytes → Option (List ℕ) → Option Reason
ports_reason framework none = some (unknown_framework framework)
ports_reason framework (some ports) = none

abbrev pub framework_error : Flags → Option Reason
framework_error flags = ports_reason flags.framework (get_framework_benchmark_ports flags.framework)

-- `main`, with what SetupPS gives and the connections that are dialed. BenchEcho without a
-- connection ends the process; a panic inside of a benchmark would too, and is left out here.
-- `gen_report` is tested behind the checks of the sort and the mode, and in front of the others.
unfoldable pub main : Flags → Setup → ℕ → List Action
unfolding benchmarks validate_sort validate_ps_mode validate_pipeline get_framework_benchmark_ports
main flags setup conns = fatal_if (sort_error flags) (
    fatal_if (ps_mode_error flags) (
      if flags.gen_report
      then write_tables ∷ []
      else fatal_if (pipeline_error flags)
          (fatal_if (framework_error flags) (benchmarks flags setup conns))))

-- The report that stands for BenchPipeline where the server does not support pipelining.
unfoldable pub skipped_report : {F : Type 0} → F → Bytes → Report F
skipped_report z framework = record {
  kind = bench_rate;
  values =
      text framework
      ∷ text (framework_lang framework)
      ∷ text (codes "benchcli-go")
      ∷ int (pos 0)
      ∷ int (pos 0)
      ∷ float z
      ∷ float z
      ∷ int (pos 0)
      ∷ int (pos 0)
      ∷ int (pos 0)
      ∷ int (pos 0)
      ∷ int (pos 0)
      ∷ int (pos 0)
      ∷ int (pos 0)
      ∷ int (pos 0)
      ∷ int (pos 0)
      ∷ bool false
      ∷ float z
      ∷ float z
      ∷ float z
      ∷ uint 0
      ∷ uint 0
      ∷ uint 0
      ∷ bool true
      ∷ bytes none
      ∷ bytes none
      ∷ [];
}
