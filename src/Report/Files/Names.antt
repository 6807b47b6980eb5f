-- ===== src/Report/Files/Names.antt =====
-- The names of the report files of a run.
use go_http_benchmark.Prelude.{
  ℕ, ◌≡◌, ◌≢◌, refl, sym, ap, ◌∙◌, [], ◌∷◌, ◌++◌, Bytes, codes, arith, append_assoc,
}
use mathlib.Core.List.{append_cancel_left, append_cancel_right}
use go_http_benchmark.Report.Columns.{Kind, connections, bench_echo, bench_rate}
use go_http_benchmark.Report.Files.{filename, name, json_name}

abbrev last_byte : Bytes → ℕ
last_byte [] = 0
last_byte (x ∷ []) = x
last_byte (x ∷ y ∷ ys) = last_byte (y ∷ ys)

last_byte-append :
    (xs : Bytes) (y : ℕ) (ys : Bytes) → last_byte (xs ++ (y ∷ ys)) ≡ last_byte (y ∷ ys)
last_byte-append [] y ys = refl
last_byte-append (x ∷ []) y ys = refl
last_byte-append (x ∷ z ∷ xs) y ys = last_byte-append (z ∷ xs) y ys

-- Texts that end in different bytes differ.
ends_differ :
    (as' bs : Bytes) (x y : ℕ) (xs ys : Bytes)
    → as' ++ (x ∷ xs) ≡ bs ++ (y ∷ ys)
    → last_byte (x ∷ xs) ≡ last_byte (y ∷ ys)
ends_differ as' bs x y xs ys e =
    sym (last_byte-append as' x xs) ∙ (ap last_byte e ∙ last_byte-append bs y ys)

filename-base :
    (a b preffix suffix : Bytes) → filename a preffix suffix ≡ filename b preffix suffix → a ≡ b
unfolding filename
filename-base a b preffix suffix e = append_cancel_right a b suffix (
    append_cancel_left preffix (a ++ suffix) (b ++ suffix) (
      append_cancel_left (codes "./output/report/") (preffix ++ (a ++ suffix))
        (preffix ++ (b ++ suffix)) e))

name_injective : (k l : Kind) (f g : Bytes) → name k f ≡ name l g → (k ≡ l) × (f ≡ g)
unfolding name
name_injective connections connections f g e =
    (refl, append_cancel_right f g (codes "-Connections") e)
name_injective bench_echo bench_echo f g e = (refl, append_cancel_right f g (codes "-BenchEcho") e)
name_injective bench_rate bench_rate f g e =
    (refl, append_cancel_right f g (codes "-BenchPipeline") e)
name_injective connections bench_echo f g e =
    absurd (omega (arith, ends_differ f g b'-' b'-' (codes "Connections") (codes "BenchEcho") e))
name_injective connections bench_rate f g e =
    absurd
      (omega (arith, ends_differ f g b'-' b'-' (codes "Connections") (codes "BenchPipeline") e))
name_injective bench_echo connections f g e =
    absurd (omega (arith, ends_differ f g b'-' b'-' (codes "BenchEcho") (codes "Connections") e))
name_injective bench_echo bench_rate f g e =
    absurd (omega (arith, ends_differ f g b'-' b'-' (codes "BenchEcho") (codes "BenchPipeline") e))
name_injective bench_rate connections f g e =
    absurd
      (omega (arith, ends_differ f g b'-' b'-' (codes "BenchPipeline") (codes "Connections") e))
name_injective bench_rate bench_echo f g e =
    absurd (omega (arith, ends_differ f g b'-' b'-' (codes "BenchPipeline") (codes "BenchEcho") e))

-- The names of the report files of a run differ for different benchmarks and frameworks.
pub json_name_injective :
    (k l : Kind) (f g preffix suffix : Bytes)
    → json_name k f preffix suffix ≡ json_name l g preffix suffix
    → (k ≡ l) × (f ≡ g)
json_name_injective k l f g preffix suffix e =
    name_injective k l f g (filename-base (name k f) (name l g) preffix (suffix ++ codes ".json") e)

filename-ends :
    (a b preffix suffix : Bytes) (x y : ℕ) (xs ys : Bytes)
    → filename a preffix (suffix ++ (x ∷ xs)) ≡ filename b preffix (suffix ++ (y ∷ ys))
    → last_byte (x ∷ xs) ≡ last_byte (y ∷ ys)
unfolding filename
filename-ends a b preffix suffix x y xs ys e =
    ends_differ (codes "./output/report/" ++ (preffix ++ (a ++ suffix)))
      (codes "./output/report/" ++ (preffix ++ (b ++ suffix))) x y xs ys (simp append_assoc e)

-- A profile is not written to a report file.
pub profile-json :
    (k : Kind) (f b preffix suffix : Bytes)
    → (filename b preffix (suffix ++ codes ".pprof.cpu") ≢ json_name k f preffix suffix)
      × (filename b preffix (suffix ++ codes ".pprof.mem") ≢ json_name k f preffix suffix)
profile-json k f b preffix suffix = (
  λ e. absurd (
      omega (
        arith,
        filename-ends b (name k f) preffix suffix b'.' b'.' (codes "pprof.cpu") (codes "json") e,
      )),
  λ e. absurd (
      omega (
        arith,
        filename-ends b (name k f) preffix suffix b'.' b'.' (codes "pprof.mem") (codes "json") e,
      )),
)
