-- ===== src/Client/Run.antt =====
-- What main does, and behind which checks.
use go_http_benchmark.Prelude.{
  ℕ, zero, suc, ◌≡◌, ◌≢◌, refl, sym, ap, ◌∙◌, subst, Bool, true, false, not, ◌&&◌, List, [], ◌∷◌,
  ◌++◌, Option, none, some, Bytes, if◌then◌else◌, inl, inr, Bool-cases, ℤ, pos, negsuc, or_default,
  arith, and_left, and_right,
}
use go_http_benchmark.BenchRate.Start.{init, settle, checked, is_wrong, Ready, Started}
use go_http_benchmark.BenchRate.Start
use go_http_benchmark.Client.{
  Flags, Reason, Action, fatal, write_tables, run_connections, setup_ps, run_echo, run_rate,
  save_report, save_skipped, stop_rate, stop_echo, stop_sampling, stop_connections, main,
  benchmarks, echo_part, unless_empty, rate_part, rate_settings, sort_error, ps_mode_error,
  pipeline_error, framework_error, fatal_if, at_least_one, Profiles, pipeline_reason, profiles_if,
}
use go_http_benchmark.Config.Ports.{has_pprof, supports_pipeline}
use go_http_benchmark.Config.Sampling.{Setup}
use go_http_benchmark.Protocol.Batch.{Batch, PipelineError, validate_pipeline}

-- The checks pass, and there is no -r.
abbrev pub IsChecked : Flags → Type 0
IsChecked flags =
    (sort_error flags ≡ none)
    × (ps_mode_error flags ≡ none)
    × (flags.gen_report ≡ false)
    × (pipeline_error flags ≡ none)
    × (framework_error flags ≡ none)

abbrev IsFetched : Bool → Flags → Option Profiles → Type 0
IsFetched wanted flags none = Unit
IsFetched wanted flags (some p) = (wanted ≡ true) × (has_pprof flags.framework ≡ true)

-- What holds where main does something.
abbrev pub IsAllowed : Flags → Action → Type 0
IsAllowed flags (run_connections s) = IsChecked flags
IsAllowed flags (run_echo p) = IsFetched flags.echo_pprof flags p
IsAllowed flags (run_rate s p) =
    (flags.rate_enabled ≡ true)
    × (supports_pipeline flags.framework ≡ true)
    × IsFetched flags.rate_pprof flags p
    × ((random : ℕ → Bytes) (e : PipelineError) → init random s ≢ Start.wrong_pipeline e)
IsAllowed flags save_skipped =
    (flags.rate_enabled ≡ true) × (supports_pipeline flags.framework ≡ false)
IsAllowed flags (fatal r) = Unit
IsAllowed flags write_tables = flags.gen_report ≡ true
IsAllowed flags setup_ps = Unit
IsAllowed flags (save_report k) = Unit
IsAllowed flags stop_rate = Unit
IsAllowed flags stop_echo = Unit
IsAllowed flags stop_sampling = Unit
IsAllowed flags stop_connections = Unit

abbrev pub AllAllowed : Flags → List Action → Type 0
AllAllowed flags [] = Unit
AllAllowed flags (a ∷ as') = IsAllowed flags a × AllAllowed flags as'

AllAllowed-append :
    (flags : Flags) (xs ys : List Action)
    → AllAllowed flags xs
    → AllAllowed flags ys
    → AllAllowed flags (xs ++ ys)
AllAllowed-append flags [] ys h k = k
AllAllowed-append flags (x ∷ xs) ys (h, hs) k = (h, AllAllowed-append flags xs ys hs k)

-- The rate that main checks a pipeline against is the one that BenchRate runs at.
same_rate : (r : ℤ) → at_least_one r ≡ pos (or_default r 1)
same_rate (pos zero) = refl
same_rate (pos (suc n)) = ap pos (omega arith)
same_rate (negsuc n) = refl

checked-accepts :
    (f : Batch → Ready) (o : Option Batch) (e : PipelineError)
    → checked f o ≢ Start.wrong_pipeline e
checked-accepts f none e = cc
checked-accepts f (some b) e = elim (Bool-cases (is_wrong b)) [ inl t ↦ rw t cc | inr t ↦ rw t cc ]

settle-accepts :
    (random : ℕ → Bytes) (s : Start.Settings) (n : ℕ) (e : PipelineError)
    → validate_pipeline s.pipeline (pos (or_default s.send_rate 1)) ≡ none
    → settle random s n ≢ Start.wrong_pipeline e
settle-accepts random s zero e v = cc
settle-accepts random s (suc c) e v = rw v (checked-accepts _ _ e)

pipeline_reason-none : (o : Option PipelineError) → pipeline_reason o ≡ none → o ≡ none
pipeline_reason-none none h = refl
pipeline_reason-none (some e) h = cc

-- Behind main's check, BenchRate takes the pipeline.
init-accepts :
    (flags : Flags) (conns : ℕ) (random : ℕ → Bytes) (e : PipelineError)
    → flags.rate_enabled ≡ true
    → pipeline_error flags ≡ none
    → init random (rate_settings flags conns) ≢ Start.wrong_pipeline e
unfolding init
init-accepts flags conns random e on ok =
    let reason : pipeline_reason
          (validate_pipeline flags.rate_pipeline (at_least_one flags.rate_send_rate))
        ≡ none =
      subst
        (λ (b : Bool).
          (if b
            then pipeline_reason
                (validate_pipeline flags.rate_pipeline (at_least_one flags.rate_send_rate))
            else none)
          ≡ none)
        on ok in
    settle-accepts random (rate_settings flags conns) _ e (
      ap (validate_pipeline flags.rate_pipeline) (sym (same_rate flags.rate_send_rate))
      ∙ pipeline_reason-none
          (validate_pipeline flags.rate_pipeline (at_least_one flags.rate_send_rate)) reason)

profiles_if-IsFetched :
    (wanted : Bool) (flags : Flags) (p : Profiles)
    → IsFetched wanted flags (profiles_if (wanted && has_pprof flags.framework) p)
profiles_if-IsFetched wanted flags p = elim (Bool-cases (wanted && has_pprof flags.framework)) [
  | inl t ↦ rw t (
    and_left wanted (has_pprof flags.framework) t,
    and_right wanted (has_pprof flags.framework) t,
  )
  | inr t ↦ rw t tt
]

if-AllAllowed :
    (flags : Flags) (b : Bool) (xs ys : List Action)
    → (b ≡ true → AllAllowed flags xs)
    → (b ≡ false → AllAllowed flags ys)
    → AllAllowed flags (if b then xs else ys)
if-AllAllowed flags true xs ys h k = h refl
if-AllAllowed flags false xs ys h k = k refl

and_not : (a b : Bool) → (a && not b) ≡ true → b ≡ false
and_not true true h = sym h
and_not true false h = refl
and_not false true h = cc
and_not false false h = refl

and_not-false : (a b : Bool) → (a && not b) ≡ false → a ≡ true → b ≡ true
and_not-false true true h e = refl
and_not-false true false h e = cc
and_not-false false b h e = cc

rate_part-AllAllowed :
    (flags : Flags) (setup : Setup) (conns : ℕ)
    → IsChecked flags
    → AllAllowed flags (rate_part flags setup conns)
unfolding rate_part
rate_part-AllAllowed flags setup conns (s, m, g, p, f) =
    let can = supports_pipeline flags.framework in
    if-AllAllowed flags (flags.rate_enabled && not can) _ _
      (λ t. ((and_left flags.rate_enabled (not can) t, and_not flags.rate_enabled can t), tt))
      (λ t.
        if-AllAllowed flags flags.rate_enabled _ _
          (λ on. (
            (
              on,
              and_not-false flags.rate_enabled can t on,
              profiles_if-IsFetched flags.rate_pprof flags _,
              λ random e. init-accepts flags conns random e on p,
            ),
            (tt, (tt, tt)),
          ))
          (λ off. tt))

echo_part-AllAllowed :
    (flags : Flags) (setup : Setup) (conns : ℕ)
    → IsChecked flags
    → AllAllowed flags (echo_part flags setup conns)
unfolding echo_part
echo_part-AllAllowed flags setup conns h = (
  profiles_if-IsFetched flags.echo_pprof flags _,
  (
    tt,
    AllAllowed-append flags (rate_part flags setup conns)
        (stop_echo ∷ stop_sampling ∷ stop_connections ∷ [])
        (rate_part-AllAllowed flags setup conns h) (tt, (tt, (tt, tt))),
  ),
)

unless_empty-AllAllowed :
    (flags : Flags) (conns : ℕ) (actions : List Action)
    → AllAllowed flags actions
    → AllAllowed flags (unless_empty conns actions)
unless_empty-AllAllowed flags zero actions h = (tt, tt)
unless_empty-AllAllowed flags (suc n) actions h = h

benchmarks-AllAllowed :
    (flags : Flags) (setup : Setup) (conns : ℕ)
    → IsChecked flags
    → AllAllowed flags (benchmarks flags setup conns)
unfolding benchmarks
benchmarks-AllAllowed flags setup conns h = (
  h,
  (
    tt,
    (
      tt,
      unless_empty-AllAllowed flags conns (echo_part flags setup conns)
          (echo_part-AllAllowed flags setup conns h),
    ),
  ),
)

fatal_if-AllAllowed :
    (flags : Flags) (o : Option Reason) (actions : List Action)
    → (o ≡ none → AllAllowed flags actions)
    → AllAllowed flags (fatal_if o actions)
fatal_if-AllAllowed flags none actions h = h refl
fatal_if-AllAllowed flags (some r) actions h = (tt, tt)

-- Whatever the flags and whatever SetupPS finds: main dials connections only where each of its four
-- checks passes and there is no -r, and makes the tables only where there is -r. BenchPipeline runs
-- only with -rate and where the framework supports pipelining, and then init of BenchRate does not
-- refuse the pipeline; it is noted as skipped only with -rate and where the framework does not
-- support pipelining. A benchmark fetches profiles only where its flag asks for them and the server
-- is one in Go.
pub main-AllAllowed :
    (flags : Flags) (setup : Setup) (conns : ℕ) → AllAllowed flags (main flags setup conns)
unfolding main
main-AllAllowed flags setup conns = fatal_if-AllAllowed flags (sort_error flags) _ (λ s.
    fatal_if-AllAllowed flags (ps_mode_error flags) _ (λ m.
      if-AllAllowed flags flags.gen_report _ _ (λ g. (g, tt))
        (λ g. fatal_if-AllAllowed flags (pipeline_error flags) _ (λ p.
          fatal_if-AllAllowed flags (framework_error flags) _
            (λ f. benchmarks-AllAllowed flags setup conns (s, m, g, p, f))))))
