-- ===== src/Report/Files/RoundTrip/Saved.antt =====
-- What ReadReports finds after the saves of a run.
use go_http_benchmark.Prelude.{
  ◌≡◌, refl, sym, ap, ◌∙◌, subst, Bool, true, false, ◌&&◌, List, [], ◌∷◌, Option, none, some, Bytes,
  equal, if◌then◌else◌, and_left,
}
use go_http_benchmark.Config.Ports.{framework_list}
use go_http_benchmark.Report.Cells.{Report}
use go_http_benchmark.Report.Columns.{Kind, connections, bench_echo, bench_rate}
use go_http_benchmark.Report.Outside.{Outside}
use go_http_benchmark.Report.Ratios.{Ratios}
use go_http_benchmark.Report.Made.Sound.{IsSound}
use go_http_benchmark.Report.Files.{
  json_name, Disk, Json, to_file, framework_of, created, save_reports, read_reports, read_from,
  append_read, unmarshal_file,
}
use go_http_benchmark.Report.Files.Writes.{all_work, to_file-json}
use go_http_benchmark.Report.Files.RoundTrip.{
  same_kind, same_kind-eq, names_equal, without_profiles, or_else, latest, IsJson,
}
use go_http_benchmark.Report.Files.RoundTrip.Filled.{filled_in-created}

module _ (o : Outside) (f : Ratios o) (json : Json o.Float) (is_json : IsJson o f json)
    (preffix suffix : Bytes) where
  abbrev pub AreSound : List (Report o.Float) → Type 0
  AreSound [] = Unit
  AreSound (r ∷ rs) = IsSound o f r × AreSound rs

  -- What is in a file: the JSON of the report that was saved last, or what was there before.
  abbrev content : Option (Report o.Float) → Option Bytes → Option Bytes
  content none before = before
  content (some r) before = json.marshal r

  save_one :
      (last : Option (Report o.Float)) (b : Bytes) (r : Report o.Float) (before : Option Bytes)
      (t : Bool)
      → json.marshal r ≡ some b
      → content last (if t then some b else before)
        ≡ content (or_else last (if t then some r else none)) before
  save_one none b r before true e = sym e
  save_one none b r before false e = refl
  save_one (some q) b r before t e = refl

  save_reports-json :
      (kind : Kind) (framework : Bytes) (rs : List (Report o.Float)) (disk : Disk)
      → AreSound rs
      → save_reports json all_work rs preffix suffix disk (json_name kind framework preffix suffix)
        ≡ content (latest kind framework rs) (disk (json_name kind framework preffix suffix))
  unfolding save_reports
  save_reports-json kind framework [] disk h = refl
  save_reports-json kind framework (r ∷ rs) disk (h, hs) =
      let (b, e) = is_json.marshals r h in
      let n = json_name kind framework preffix suffix in
      save_reports-json kind framework rs (to_file json all_work r preffix suffix disk).disk hs
      ∙ (ap (content (latest kind framework rs)) (
            to_file-json json r b preffix suffix disk kind framework e
            ∙ ap (λ (t : Bool). if t then some b else disk n)
                (names_equal r.kind kind (framework_of r) framework preffix suffix))
          ∙ save_one (latest kind framework rs) b r (disk n)
              (same_kind r.kind kind && equal (framework_of r) framework) e)

  -- The reports to be read: of each framework the one that was saved last, without its profiles, and
  -- for a framework of which none was saved, what is read of an earlier run.
  abbrev pub found : Kind → Bytes → Disk → Option (Report o.Float) → Option (Report o.Float)
  found kind framework disk (some r) = some (without_profiles r)
  found kind framework disk none =
      unmarshal_file json (created o.zero_float kind framework)
        (disk (json_name kind framework preffix suffix))

  abbrev pub all_found : Kind → List (Report o.Float) → Disk → List Bytes → List (Report o.Float)
  all_found kind rs disk [] = []
  all_found kind rs disk (v ∷ vs) =
      append_read (found kind v disk (latest kind v rs)) (all_found kind rs disk vs)

  abbrev Fits : Kind → Option (Report o.Float) → Type 0
  Fits kind none = Unit
  Fits kind (some r) = (r.kind ≡ kind) × IsSound o f r

  if-Fits :
      (kind : Kind) (r : Report o.Float) (t : Bool)
      → (t ≡ true → r.kind ≡ kind)
      → IsSound o f r
      → Fits kind (if t then some r else none)
  if-Fits kind r true p h = (p refl, h)
  if-Fits kind r false p h = tt

  or_else-Fits :
      (kind : Kind) (p q : Option (Report o.Float))
      → Fits kind p
      → Fits kind q
      → Fits kind (or_else p q)
  or_else-Fits kind none q h k = k
  or_else-Fits kind (some r) q h k = h

  latest-Fits :
      (kind : Kind) (framework : Bytes) (rs : List (Report o.Float))
      → AreSound rs
      → Fits kind (latest kind framework rs)
  latest-Fits kind framework [] hs = tt
  latest-Fits kind framework (r ∷ rs) (h, hs) =
      let t = same_kind r.kind kind in
      let u = equal (framework_of r) framework in
      or_else-Fits kind (latest kind framework rs) (if t && u then some r else none)
        (latest-Fits kind framework rs hs)
        (if-Fits kind r (t && u) (λ e. same_kind-eq r.kind kind (and_left t u e)) h)

  read_one :
      (kind : Kind) (framework : Bytes) (disk : Disk) (last : Option (Report o.Float))
      → Fits kind last
      → unmarshal_file json
          (created o.zero_float kind framework)
          (content last (disk (json_name kind framework preffix suffix)))
        ≡ found kind framework disk last
  unfolding created
  read_one kind framework disk none h = refl
  read_one kind framework disk (some r) (p, h) =
      let (b, e) = is_json.marshals r h in
      subst
        (λ (k : Kind).
          unmarshal_file json (created o.zero_float k framework) (json.marshal r)
          ≡ some (without_profiles r))
        p
        (rw e (
          is_json.unmarshals r (created o.zero_float r.kind framework) b h refl e
          ∙ ap some (filled_in-created o f r framework h)))

  created-names :
      (kind : Kind) (v : Bytes)
      → json_name
          (created o.zero_float kind v).kind
          (framework_of (created o.zero_float kind v))
          preffix
          suffix
        ≡ json_name kind v preffix suffix
  unfolding created
  created-names connections v = refl
  created-names bench_echo v = refl
  created-names bench_rate v = refl

  read_from-all_found :
      (kind : Kind) (rs : List (Report o.Float)) (disk : Disk) (vs : List Bytes)
      → AreSound rs
      → read_from json o.zero_float kind preffix suffix
          (save_reports json all_work rs preffix suffix disk)
          vs
        ≡ all_found kind rs disk vs
  unfolding read_from
  read_from-all_found kind rs disk [] hs = refl
  read_from-all_found kind rs disk (v ∷ vs) hs =
      rw
        (
          created-names kind v,
          save_reports-json kind v rs disk hs,
          read_one kind v disk (latest kind v rs) (latest-Fits kind v rs hs),
          read_from-all_found kind rs disk vs hs,
        )
        refl

  -- However the reports of a run, of any benchmarks and frameworks, follow one another, once they
  -- are saved with writes that work, ReadReports gives the reports of one benchmark, in the order
  -- of the frameworks: of each framework the one that was saved last, as it was but for its
  -- profiles, and for a framework of which none was saved what an earlier run left in its file, if
  -- anything.
  pub read_reports-save_reports :
      (kind : Kind) (rs : List (Report o.Float)) (disk : Disk)
      → AreSound rs
      → read_reports json o.zero_float kind preffix suffix
          (save_reports json all_work rs preffix suffix disk)
        ≡ all_found kind rs disk framework_list
  unfolding read_reports
  read_reports-save_reports kind rs disk hs = read_from-all_found kind rs disk framework_list hs
