-- ===== src/Report/Files/Writes.antt =====
-- What ToFile leaves in the report files where the writes work.
use go_http_benchmark.Prelude.{
  ◌≡◌, ◌≢◌, refl, sym, true, ◌++◌, Option, none, some, Bytes, codes, equal, equal_iff, subst, inl,
  inr, Bool-cases, if◌then◌else◌,
}
use go_http_benchmark.Report.Cells.{Report}
use go_http_benchmark.Report.Columns.{Kind}
use go_http_benchmark.Report.Files.{
  filename, name, json_name, Disk, Outcome, works, put, write_file, Json, to_file, pprof_cpu,
  pprof_mem, framework_of, write_profile, write_json, and_then,
}
use go_http_benchmark.Report.Files.Names.{profile-json}

abbrev pub all_work : Bytes → Bytes → Outcome
all_work filename content = works

put-other :
    (n m : Bytes) (content : Option Bytes) (disk : Disk) → n ≢ m → put n content disk m ≡ disk m
put-other n m content disk h = elim (Bool-cases (equal n m)) [
  | inl t ↦ absurd (h ((equal_iff n m).0 t))
  | inr t ↦ rw t refl
]

module _ {F : Type 0} (json : Json F) where
  profile-disk :
      (n m : Bytes) (profile : Option Bytes) (disk : Disk)
      → n ≢ m
      → (write_profile json all_work n profile disk).disk m ≡ disk m
  unfolding write_file
  profile-disk n m none disk h = refl
  profile-disk n m (some p) disk h = put-other n m (some p) disk h

  profile-saved :
      (n : Bytes) (profile : Option Bytes) (disk : Disk)
      → (write_profile json all_work n profile disk).saved ≡ true
  unfolding write_file
  profile-saved n none disk = refl
  profile-saved n (some p) disk = refl

  three_writes :
      (cpu mem report m b : Bytes) (p q : Option Bytes) (disk : Disk)
      → cpu ≢ m
      → mem ≢ m
      → (and_then json all_work (write_profile json all_work cpu p disk) (λ disk1.
            and_then json all_work
              (write_profile json all_work mem q disk1)
              (λ disk2. write_json json all_work report (some b) disk2))).disk
          m
        ≡ (if equal report m then some b else disk m)
  unfolding write_file
  three_writes cpu mem report m b p q disk h k =
      let d = (write_profile json all_work cpu p disk).disk in
      rw
        (
          profile-saved cpu p disk,
          profile-saved mem q d,
          profile-disk mem m q d k,
          profile-disk cpu m p disk h,
        )
        refl

  -- ToFile changes one report file, where there is JSON for the report.
  pub to_file-json :
      (r : Report F) (b preffix suffix : Bytes) (disk : Disk) (l : Kind) (g : Bytes)
      → json.marshal r ≡ some b
      → (to_file json all_work r preffix suffix disk).disk (json_name l g preffix suffix) ≡ (
          if equal (json_name r.kind (framework_of r) preffix suffix) (json_name l g preffix suffix)
          then some b
          else disk (json_name l g preffix suffix))
  unfolding to_file
  to_file-json r b preffix suffix disk l g e =
      let base = name r.kind (framework_of r) in
      let (h, k) = profile-json l g base preffix suffix in
      subst
        (λ (out : Option Bytes).
          (and_then json all_work
              (write_profile json all_work (filename base preffix (suffix ++ codes ".pprof.cpu"))
                (pprof_cpu r) disk)
              (λ disk1.
                and_then json all_work
                  (write_profile json all_work
                    (filename base preffix (suffix ++ codes ".pprof.mem")) (pprof_mem r) disk1)
                  (λ disk2.
                    write_json json all_work (json_name r.kind (framework_of r) preffix suffix) out
                      disk2))).disk
            (json_name l g preffix suffix)
          ≡ (if equal (json_name r.kind (framework_of r) preffix suffix)
                (json_name l g preffix suffix)
              then some b
              else disk (json_name l g preffix suffix)))
        (sym e)
        (three_writes (filename base preffix (suffix ++ codes ".pprof.cpu"))
          (filename base preffix (suffix ++ codes ".pprof.mem"))
          (json_name r.kind (framework_of r) preffix suffix) (json_name l g preffix suffix) b
          (pprof_cpu r) (pprof_mem r) disk h k)
