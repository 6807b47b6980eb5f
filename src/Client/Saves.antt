-- ===== src/Client/Saves.antt =====
-- The reports that a run of the client saves.
use go_http_benchmark.Prelude.{
  ℕ, zero, suc, ◌≡◌, refl, ap, ◌∙◌, Bool, true, false, not, ◌&&◌, List, [], ◌∷◌, ◌++◌,
  if◌then◌else◌,
}
use go_http_benchmark.Client.{
  Flags, Action, fatal, write_tables, run_connections, setup_ps, run_echo, run_rate, save_report,
  save_skipped, stop_rate, stop_echo, stop_sampling, stop_connections, main, benchmarks, echo_part,
  rate_part,
}
use go_http_benchmark.Client.Run.{IsChecked}
use go_http_benchmark.Config.Ports.{supports_pipeline}
use go_http_benchmark.Config.Sampling.{Setup}
use go_http_benchmark.Report.Columns.{Kind, connections, bench_echo, bench_rate}

abbrev one_saved : Action → List Kind → List Kind
one_saved (save_report k) ks = k ∷ ks
one_saved save_skipped ks = bench_rate ∷ ks
one_saved (run_connections s) ks = ks
one_saved (run_echo p) ks = ks
one_saved (run_rate s p) ks = ks
one_saved (fatal r) ks = ks
one_saved write_tables ks = ks
one_saved setup_ps ks = ks
one_saved stop_rate ks = ks
one_saved stop_echo ks = ks
one_saved stop_sampling ks = ks
one_saved stop_connections ks = ks

-- The benchmarks whose reports are saved, in order.
abbrev pub saves : List Action → List Kind
saves [] = []
saves (a ∷ as') = one_saved a (saves as')

saves_if :
    (b : Bool) (xs ys zs : List Action)
    → saves ((if b then xs else ys) ++ zs) ≡ (if b then saves (xs ++ zs) else saves (ys ++ zs))
saves_if true xs ys zs = refl
saves_if false xs ys zs = refl

either :
    (enabled can : Bool) (ks : List Kind)
    → (if enabled && not can then ks else (if enabled then ks else []))
      ≡ (if enabled then ks else [])
either true true ks = refl
either true false ks = refl
either false can ks = refl

saves-echo_part :
    (flags : Flags) (setup : Setup) (conns : ℕ)
    → saves (echo_part flags setup conns)
      ≡ bench_echo ∷ (if flags.rate_enabled then bench_rate ∷ [] else [])
unfolding echo_part rate_part
saves-echo_part flags setup conns =
    ap (λ (ks : List Kind). bench_echo ∷ ks)
      (saves_if (flags.rate_enabled && not (supports_pipeline flags.framework)) _ _ _
        ∙ (ap
              (λ (ks : List Kind).
                if flags.rate_enabled && not (supports_pipeline flags.framework)
                then bench_rate ∷ []
                else ks)
              (saves_if flags.rate_enabled _ _ _)
            ∙ either flags.rate_enabled (supports_pipeline flags.framework) (bench_rate ∷ [])))

-- The reports of a run with `conns` connections.
abbrev pub saved_kinds : Flags → ℕ → List Kind
saved_kinds flags zero = connections ∷ []
saved_kinds flags (suc n) =
    connections ∷ bench_echo ∷ (if flags.rate_enabled then bench_rate ∷ [] else [])

saves-benchmarks :
    (flags : Flags) (setup : Setup) (conns : ℕ)
    → saves (benchmarks flags setup conns) ≡ saved_kinds flags conns
unfolding benchmarks
saves-benchmarks flags setup zero = refl
saves-benchmarks flags setup (suc n) =
    ap (λ (ks : List Kind). connections ∷ ks) (saves-echo_part flags setup (suc n))

-- A run that passes the checks, and is not one with -r, saves one report of each benchmark, in the
-- order of the benchmarks: of Connections and of BenchEcho, and with -rate one of BenchPipeline,
-- also where the server does not support pipelining. This is where a connection at least was dialed
-- and no benchmark panics; where none was dialed, BenchEcho ends the process, and only the report of
-- Connections is saved.
pub saves-main :
    (flags : Flags) (setup : Setup) (conns : ℕ)
    → IsChecked flags
    → saves (main flags setup conns) ≡ saved_kinds flags conns
unfolding main
saves-main flags setup conns (s, m, g, p, f) =
    simp (s, m, g, p, f) (saves-benchmarks flags setup conns)
