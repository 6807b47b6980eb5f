-- ===== src/Report/Made/Sound.antt =====
-- What encoding/json takes: reports whose numbers are finite.
use go_http_benchmark.Prelude.{
  ℤ, ◌≡◌, refl, Bool, true, false, not, ◌&&◌, ◌||◌, List, [], ◌∷◌, Option, none, some, Bytes, ltb,
  codes, ◌⊎◌, inl, inr, Bool-cases, and_left, and_right, arith, equal,
}
use go_http_benchmark.Config.Ports.{framework_lang, among, framework_list, at, langs, or_dash}
use go_http_benchmark.Report.Cells.{Report, Value, text, int, uint, float, bool, bytes}
use go_http_benchmark.Report.Columns.{Column, columns, GoType}
use go_http_benchmark.Report.Columns
use go_http_benchmark.Report.Outside.{Outside}
use go_http_benchmark.Report.Ratios.{Ratios, cpu_eer, mem_eer, rate_tps, eer, fill_tps, filled_tps}
use go_http_benchmark.Report.Made.{
  PsCounter, ConnectionsRun, EchoRun, RateRun, connections_report, bench_echo_report,
  bench_rate_report, cpu_eer_of, mem_eer_of, counter_or_zero,
}

abbrev pub is_ascii : Bytes → Bool
is_ascii [] = true
is_ascii (c ∷ s) = ltb c 128 && is_ascii s

abbrev values_ascii : List (Bytes × Bytes) → Bool
values_ascii [] = true
values_ascii ((k, v) ∷ es) = is_ascii v && values_ascii es

module _ (o : Outside) (f : Ratios o) where
  abbrev pub is_finite : o.Float → Bool
  is_finite v = not (f.is_inf v || f.is_nan v)

  -- A field holds a value of its type; its text is ASCII, its number finite.
  abbrev pub holds : GoType → Value o.Float → Bool
  holds Columns.text (text s) = is_ascii s
  holds Columns.int (int n) = true
  holds Columns.uint (uint n) = true
  holds Columns.float (float x) = is_finite x
  holds Columns.bool (bool b) = true
  holds Columns.bytes (bytes b) = true
  holds t v = false

  abbrev pub hold_all : List Column → List (Value o.Float) → Bool
  hold_all [] [] = true
  hold_all [] (v ∷ vs) = false
  hold_all (c ∷ cs) [] = false
  hold_all (c ∷ cs) (v ∷ vs) = holds c.go_type v && hold_all cs vs

  -- The fields of a report hold values of their types, with finite numbers and ASCII texts.
  abbrev pub IsSound : Report o.Float → Type 0
  IsSound r = hold_all (columns r.kind) r.values ≡ true

  -- What the perf library says of the CPU is a number.
  abbrev pub IsMeasured : Option (PsCounter o.Float) → Type 0
  IsMeasured none = Unit
  IsMeasured (some p) =
      (is_finite p.cpu_min ≡ true) × (is_finite p.cpu_avg ≡ true) × (is_finite p.cpu_max ≡ true)

  pub eer-finite : (t c : o.Float) → is_finite o.zero_float ≡ true → is_finite (eer o f t c) ≡ true
  unfolding eer
  eer-finite t c z = ground arith

entry-ascii :
    (key : Bytes) (es : List (Bytes × Bytes))
    → values_ascii es ≡ true
    → is_ascii (or_dash (at key es)) ≡ true
entry-ascii key [] h = refl
entry-ascii key ((k, v) ∷ es) h = elim (Bool-cases (equal k key)) [
  | inl t ↦ rw t (and_left (is_ascii v) (values_ascii es) h)
  | inr t ↦ rw t (entry-ascii key es (and_right (is_ascii v) (values_ascii es) h))
]

-- The language of every framework is ASCII.
framework_lang-ascii : (framework : Bytes) → is_ascii (framework_lang framework) ≡ true
unfolding framework_lang
framework_lang-ascii framework = entry-ascii framework langs refl

abbrev names_of : List (Bytes × Bytes) → List Bytes
names_of [] = []
names_of ((k, v) ∷ es) = k ∷ names_of es

abbrev pub languages : List Bytes
languages = codes "go" ∷ codes "rust" ∷ codes "c++" ∷ []

-- The language of a framework of the list is Go, Rust or C++; that of any other name is a dash.
abbrev pub IsLanguage : List Bytes → Bytes → Bytes → Type 0
IsLanguage names framework lang =
    ((among framework names ≡ true) × (among lang languages ≡ true))
    ⊎ ((among framework names ≡ false) × (lang ≡ codes "-"))

all_known : List (Bytes × Bytes) → Bool
all_known [] = true
all_known ((k, v) ∷ es) = among v languages && all_known es

entry-IsLanguage :
    (key : Bytes) (es : List (Bytes × Bytes))
    → all_known es ≡ true
    → IsLanguage (names_of es) key (or_dash (at key es))
unfolding all_known
entry-IsLanguage key [] h = inr (refl, refl)
entry-IsLanguage key ((k, v) ∷ es) h = elim (Bool-cases (equal k key)) [
  | inl t ↦ rw t (inl (refl, and_left (among v languages) (all_known es) h))
  | inr t ↦ rw t (entry-IsLanguage key es (and_right (among v languages) (all_known es) h))
]

framework_lang-IsLanguage :
    (framework : Bytes) → IsLanguage framework_list framework (framework_lang framework)
unfolding framework_lang all_known
framework_lang-IsLanguage framework = entry-IsLanguage framework langs refl

-- The first two fields of a report are the framework and its language.
abbrev pub IsNamed : {F : Type 0} → Bytes → Report F → Type 0
IsNamed {F = F} framework r =
    (lang : Bytes) × (vs : List (Value F)) × (r.values ≡ text framework ∷ text lang ∷ vs)
    × IsLanguage framework_list framework lang

module _ (o : Outside) (f : Ratios o) (zero_is_finite : is_finite o f o.zero_float ≡ true) where
  cpu_eer_of-finite :
      (t : o.Float) (c : Option (PsCounter o.Float)) → is_finite o f (cpu_eer_of o f t c) ≡ true
  unfolding cpu_eer
  cpu_eer_of-finite t none = zero_is_finite
  cpu_eer_of-finite t (some p) = eer-finite o f t p.cpu_avg zero_is_finite

  mem_eer_of-finite :
      (t : o.Float) (c : Option (PsCounter o.Float)) → is_finite o f (mem_eer_of o f t c) ≡ true
  unfolding mem_eer
  mem_eer_of-finite t none = zero_is_finite
  mem_eer_of-finite t (some p) =
      eer-finite o f t (f.divide (o.of_uint p.mem_rss_avg) f.mebi) zero_is_finite

  counter_or_zero-IsMeasured :
      (c : Option (PsCounter o.Float))
      → IsMeasured o f c
      → IsMeasured o f (some (counter_or_zero o f c))
  counter_or_zero-IsMeasured none h = (zero_is_finite, zero_is_finite, zero_is_finite)
  counter_or_zero-IsMeasured (some p) h = h

  connections_report-IsSound :
      (run : ConnectionsRun) → is_ascii run.framework ≡ true → IsSound o f (connections_report run)
  unfolding connections_report
  connections_report-IsSound run a = rw (a, framework_lang-ascii run.framework) refl

  bench_echo_report-IsSound :
      (run : EchoRun) (c : Option (PsCounter o.Float))
      → is_ascii run.framework ≡ true
      → IsMeasured o f c
      → IsSound o f (bench_echo_report o f run c)
  unfolding bench_echo_report
  bench_echo_report-IsSound run c a m =
      let (x, y, z) = counter_or_zero-IsMeasured c m in
      rw
        (
          a,
          framework_lang-ascii run.framework,
          cpu_eer_of-finite (o.of_int run.calculator.tps) c,
          mem_eer_of-finite (o.of_int run.calculator.tps) c,
          x,
          y,
          z,
        )
        refl

  bench_rate_report-IsSound :
      (run : RateRun) (c : Option (PsCounter o.Float))
      → is_ascii run.framework ≡ true
      → IsMeasured o f c
      → IsSound o f (bench_rate_report o f run c)
  unfolding bench_rate_report
  bench_rate_report-IsSound run c a m =
      let (x, y, z) = counter_or_zero-IsMeasured c m in
      let t = rate_tps o f run.recv_times run.duration in
      rw
        (
          a,
          framework_lang-ascii run.framework,
          cpu_eer_of-finite t c,
          mem_eer_of-finite t c,
          x,
          y,
          z,
        )
        refl

filled_tps_lem :
    (o : Outside) (f : Ratios o) (t recv_times duration : ℤ)
    → t ≡ f.floor (rate_tps o f recv_times duration)
    → filled_tps o f t recv_times duration ≡ t
filled_tps_lem o f t recv_times duration e = ground arith

-- A report of BenchRate has the TPS that `fillTPS` would give it.
pub fill_tps-bench_rate_report :
    (o : Outside) (f : Ratios o) (run : RateRun) (c : Option (PsCounter o.Float))
    → fill_tps o f (bench_rate_report o f run c) ≡ bench_rate_report o f run c
unfolding bench_rate_report fill_tps
fill_tps-bench_rate_report o f run c =
    let t = f.floor (rate_tps o f run.recv_times run.duration) in
    rw (filled_tps_lem o f t run.recv_times run.duration refl) refl

-- The reports that the three benchmarks make of their runs have a value of its type in each field,
-- with texts in ASCII and finite numbers, where the framework's name is ASCII and the samples of the
-- CPU, if there are any, are finite: the efficiencies are finite whatever the run counted and
-- however little the server spent. In each the first two fields are the framework and its language:
-- one of Go, Rust and C++ for a framework of the list, and a dash for any other.
pub reports-IsSound :
    (o : Outside) (f : Ratios o) (c : ConnectionsRun) (e : EchoRun) (r : RateRun)
    (echo_counter rate_counter : Option (PsCounter o.Float))
    → is_finite o f o.zero_float ≡ true
    → is_ascii c.framework ≡ true
    → is_ascii e.framework ≡ true
    → is_ascii r.framework ≡ true
    → IsMeasured o f echo_counter
    → IsMeasured o f rate_counter
    → IsSound o f (connections_report c)
      × IsSound o f (bench_echo_report o f e echo_counter)
      × IsSound o f (bench_rate_report o f r rate_counter)
      × IsNamed {F = o.Float} c.framework (connections_report c)
      × IsNamed {F = o.Float} e.framework (bench_echo_report o f e echo_counter)
      × IsNamed {F = o.Float} r.framework (bench_rate_report o f r rate_counter)
unfolding connections_report bench_echo_report bench_rate_report
reports-IsSound o f c e r echo_counter rate_counter z a b d m n = (
  connections_report-IsSound o f z c a,
  bench_echo_report-IsSound o f z e echo_counter b m,
  bench_rate_report-IsSound o f z r rate_counter d n,
  (_, _, refl, framework_lang-IsLanguage c.framework),
  (_, _, refl, framework_lang-IsLanguage e.framework),
  (_, _, refl, framework_lang-IsLanguage r.framework),
)
