-- ===== src/Tests/Client.antt =====
-- What a run of the client does.
use go_http_benchmark.Prelude.{◌≡◌, refl, true, false, [], ◌∷◌, codes, pos}
use go_http_benchmark.Client.{Flags, main}
use go_http_benchmark.Client.Run.{main-AllAllowed, AllAllowed, IsChecked}
use go_http_benchmark.Client.Saves.{saves, saves-main}
use go_http_benchmark.Config.Sampling.{Setup, remote, validate_ps_mode}
use go_http_benchmark.Config.Ports.{get_framework_benchmark_ports}
use go_http_benchmark.Protocol.Batch.{validate_pipeline}
use go_http_benchmark.Report.Columns.{connections, bench_echo, bench_rate}
use go_http_benchmark.Report.Ranking.{validate_sort}

-- The flags of a run with -rate.
abbrev with_rate : Flags
with_rate = record {
  framework = codes "gin";
  ip = codes "127.0.0.1";
  num_connections = pos 100;
  dial_concurrency = pos 10;
  dial_timeout = pos 5000000000;
  dial_retries = pos 5;
  dial_retry_interval = pos 100000000;
  payload = pos 1024;
  ps_mode = codes "auto";
  echo_pprof = true;
  echo_pprof_duration = pos 5;
  rate_enabled = true;
  rate_concurrency = pos 10;
  rate_duration = pos 10;
  rate_send_rate = pos 200;
  rate_batch_size = pos 16384;
  rate_pipeline = pos 4;
  rate_pprof = false;
  rate_pprof_duration = pos 5;
  gen_report = false;
  report_sort = codes "result";
}

abbrev remote_setup : Setup
remote_setup = record {
  source = remote;
  server_pid = pos 12;
  pprof_addr = codes "http://h:1";
  failed = false;
}

main-AllAllowed_example : AllAllowed with_rate (main with_rate remote_setup 100)
main-AllAllowed_example = main-AllAllowed with_rate remote_setup 100

with_rate-IsChecked : IsChecked with_rate
unfolding validate_sort validate_ps_mode validate_pipeline get_framework_benchmark_ports
with_rate-IsChecked = (refl, refl, refl, refl, refl)

saves-main_example :
    saves (main with_rate remote_setup 100) ≡ connections ∷ bench_echo ∷ bench_rate ∷ []
saves-main_example = saves-main with_rate remote_setup 100 with_rate-IsChecked
