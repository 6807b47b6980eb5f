-- ===== src/Report/Files/RoundTrip/Filled.antt =====
-- What `json.Unmarshal` makes of a new report.
use go_http_benchmark.Prelude.{
  ◌≡◌, refl, ap, Bool, true, false, ◌&&◌, List, [], ◌∷◌, none, some, Bytes, and_left, and_right,
}
use go_http_benchmark.Report.Cells.{Report, Value, text, int, uint, float, bool, bytes}
use go_http_benchmark.Report.Columns.{
  Column, Kind, GoType, columns, connections, bench_echo, bench_rate,
}
use go_http_benchmark.Report.Columns
use go_http_benchmark.Report.Outside.{Outside}
use go_http_benchmark.Report.Ratios.{Ratios}
use go_http_benchmark.Report.Made.Sound.{IsSound, hold_all, holds}
use go_http_benchmark.Report.Files.{created}
use go_http_benchmark.Report.Files.RoundTrip.{
  filled, filled_values, filled_in, stripped, stripped_values, without_profiles,
}

module _ (o : Outside) (f : Ratios o) where
  -- The item has no profiles, and as many fields as there are.
  abbrev blank_at : GoType → Value o.Float → Bool
  blank_at Columns.bytes (bytes none) = true
  blank_at Columns.bytes v = false
  blank_at t v = true

  abbrev blank : List Column → List (Value o.Float) → Bool
  blank [] ws = true
  blank (c ∷ cs) [] = false
  blank (c ∷ cs) (w ∷ ws) = blank_at c.go_type w && blank cs ws

  filled_blank :
      (t : GoType) (v w : Value o.Float)
      → holds o f t v ≡ true
      → blank_at t w ≡ true
      → filled v w ≡ stripped v
  filled_blank t (text s) w h k = refl
  filled_blank t (int n) w h k = refl
  filled_blank t (uint n) w h k = refl
  filled_blank t (float x) w h k = refl
  filled_blank t (bool b) w h k = refl
  filled_blank Columns.bytes (bytes b) (bytes none) h k = refl
  filled_blank Columns.bytes (bytes b) (bytes (some x)) h k = cc
  filled_blank Columns.bytes (bytes b) (text s) h k = cc
  filled_blank Columns.bytes (bytes b) (int n) h k = cc
  filled_blank Columns.bytes (bytes b) (uint n) h k = cc
  filled_blank Columns.bytes (bytes b) (float x) h k = cc
  filled_blank Columns.bytes (bytes b) (bool q) h k = cc
  filled_blank Columns.text (bytes b) w h k = cc
  filled_blank Columns.int (bytes b) w h k = cc
  filled_blank Columns.uint (bytes b) w h k = cc
  filled_blank Columns.float (bytes b) w h k = cc
  filled_blank Columns.bool (bytes b) w h k = cc

  filled-stripped :
      (cs : List Column) (vs ws : List (Value o.Float))
      → hold_all o f cs vs ≡ true
      → blank cs ws ≡ true
      → filled_values vs ws ≡ stripped_values vs
  filled-stripped [] [] ws h k = refl
  filled-stripped [] (v ∷ vs) ws h k = cc
  filled-stripped (c ∷ cs) [] ws h k = refl
  filled-stripped (c ∷ cs) (v ∷ vs) [] h k = cc
  filled-stripped (c ∷ cs) (v ∷ vs) (w ∷ ws) h k =
      rw
        (
          filled_blank c.go_type v w (and_left (holds o f c.go_type v) (hold_all o f cs vs) h)
              (and_left (blank_at c.go_type w) (blank cs ws) k),
          filled-stripped cs vs ws (and_right (holds o f c.go_type v) (hold_all o f cs vs) h)
              (and_right (blank_at c.go_type w) (blank cs ws) k),
        )
        refl

  created-blank :
      (kind : Kind) (framework : Bytes)
      → blank (columns kind) (created o.zero_float kind framework).values ≡ true
  unfolding created
  created-blank connections framework = refl
  created-blank bench_echo framework = refl
  created-blank bench_rate framework = refl

  abbrev with_values : Kind → List (Value o.Float) → Report o.Float
  with_values kind vs = record { kind = kind; values = vs }

  -- What is read into a new report is the report without its profiles.
  pub filled_in-created :
      (r : Report o.Float) (framework : Bytes)
      → IsSound o f r
      → filled_in r (created o.zero_float r.kind framework) ≡ without_profiles r
  filled_in-created r framework h = ap (with_values r.kind) (
      filled-stripped (columns r.kind) r.values (created o.zero_float r.kind framework).values h
        (created-blank r.kind framework))
