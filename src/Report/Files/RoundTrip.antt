-- ===== src/Report/Files/RoundTrip.antt =====
-- What ReadReports finds after a run has saved its reports.
pub mod Filled
pub mod Saved
use go_http_benchmark.Prelude.{
  ℕ, ◌≡◌, refl, sym, ap, ◌∙◌, subst, Bool, true, false, ◌&&◌, List, [], ◌∷◌, map, Option, none,
  some, Bytes, equal, equal_iff, equal_refl, ◌⊎◌, inl, inr, Bool-cases, if◌then◌else◌, and_left,
  and_right, and_intro, Bool-ext,
}
use go_http_benchmark.Config.Ports.{framework_list}
use go_http_benchmark.Report.Cells.{Report, Value, text, int, uint, float, bool, bytes}
use go_http_benchmark.Report.Columns.{
  Column, Kind, GoType, columns, connections, bench_echo, bench_rate,
}
use go_http_benchmark.Report.Columns
use go_http_benchmark.Report.Outside.{Outside}
use go_http_benchmark.Report.Ratios.{Ratios}
use go_http_benchmark.Report.Made.Sound.{IsSound, hold_all, holds}
use go_http_benchmark.Report.Files.{
  json_name, Disk, Json, to_file, framework_of, created, save_reports, read_reports, read_from,
  append_read, unmarshal_file,
}
use go_http_benchmark.Report.Files.Names.{json_name_injective}
use go_http_benchmark.Report.Files.Writes.{all_work, to_file-json}

abbrev same_kind : Kind → Kind → Bool
same_kind connections connections = true
same_kind bench_echo bench_echo = true
same_kind bench_rate bench_rate = true
same_kind k l = false

same_kind_refl : (k : Kind) → same_kind k k ≡ true
same_kind_refl connections = refl
same_kind_refl bench_echo = refl
same_kind_refl bench_rate = refl

same_kind-eq : (k l : Kind) → same_kind k l ≡ true → k ≡ l
same_kind-eq connections connections h = refl
same_kind-eq bench_echo bench_echo h = refl
same_kind-eq bench_rate bench_rate h = refl
same_kind-eq connections bench_echo h = cc
same_kind-eq connections bench_rate h = cc
same_kind-eq bench_echo connections h = cc
same_kind-eq bench_echo bench_rate h = cc
same_kind-eq bench_rate connections h = cc
same_kind-eq bench_rate bench_echo h = cc

-- The names of two report files are equal for one benchmark of one framework.
names_equal :
    (k l : Kind) (f g preffix suffix : Bytes)
    → equal (json_name k f preffix suffix) (json_name l g preffix suffix)
      ≡ (same_kind k l && equal f g)
names_equal k l f g preffix suffix =
    Bool-ext (equal (json_name k f preffix suffix) (json_name l g preffix suffix))
      (same_kind k l && equal f g)
      (λ h.
        let (p, q) =
          json_name_injective k l f g preffix suffix
            ((equal_iff (json_name k f preffix suffix) (json_name l g preffix suffix)).0 h) in
        and_intro (same_kind k l) (equal f g)
          (subst (λ (m : Kind). same_kind k m ≡ true) p (same_kind_refl k)) ((equal_iff f g).1 q))
      (λ h.
        let p = same_kind-eq k l (and_left (same_kind k l) (equal f g) h) in
        let q = (equal_iff f g).0 (and_right (same_kind k l) (equal f g) h) in
        (equal_iff (json_name k f preffix suffix) (json_name l g preffix suffix)).1 (
          (ap (λ (m : Kind). json_name m f preffix suffix) p)
          ∙ ap (λ (x : Bytes). json_name l x preffix suffix) q))

module _ {F : Type 0} where
  -- What JSON carries of a value: all but the profiles, which are not exported.
  abbrev filled : Value F → Value F → Value F
  filled (bytes b) w = w
  filled v w = v

  abbrev pub filled_values : List (Value F) → List (Value F) → List (Value F)
  filled_values [] ws = []
  filled_values (v ∷ vs) [] = []
  filled_values (v ∷ vs) (w ∷ ws) = filled v w ∷ filled_values vs ws

  -- The report with the exported fields of the first and the others of the second.
  abbrev pub filled_in : Report F → Report F → Report F
  filled_in r item = record { kind = r.kind; values = filled_values r.values item.values }

  abbrev stripped : Value F → Value F
  stripped (bytes b) = bytes none
  stripped v = v

  abbrev stripped_values : List (Value F) → List (Value F)
  stripped_values [] = []
  stripped_values (v ∷ vs) = stripped v ∷ stripped_values vs

  -- The report without its profiles.
  abbrev pub without_profiles : Report F → Report F
  without_profiles r = record { kind = r.kind; values = stripped_values r.values }

  -- The report of a benchmark and a framework that was saved last.
  abbrev or_else : Option (Report F) → Option (Report F) → Option (Report F)
  or_else (some r) q = some r
  or_else none q = q

  abbrev pub latest : Kind → Bytes → List (Report F) → Option (Report F)
  latest kind f [] = none
  latest kind f (r ∷ rs) =
      or_else (latest kind f rs)
        (if same_kind r.kind kind && equal (framework_of r) f then some r else none)

-- What the documentation of encoding/json says of reports with finite numbers and ASCII texts: there
-- is JSON for them, and reading it fills in the exported fields.
pub record IsJson (o : Outside) (f : Ratios o) (json : Json o.Float) : Type 0 where
  pub marshals : (r : Report o.Float) → IsSound o f r → (b : Bytes) × (json.marshal r ≡ some b)
  pub unmarshals :
      (r item : Report o.Float) (b : Bytes)
      → IsSound o f r
      → r.kind ≡ item.kind
      → json.marshal r ≡ some b
      → json.unmarshal b item ≡ some (filled_in r item)
