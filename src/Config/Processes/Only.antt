-- ===== src/Config/Processes/Only.antt =====
-- What FindServerProcess finds in /proc.
use go_http_benchmark.Prelude.{
  ◌≡◌, ◌≢◌, sym, ap, ◌∙◌, Bool, true, false, List, [], ◌∷◌, ◌++◌, Option, none, some, Bytes,
  equal_iff, equal_refl, inl, inr, Bool-cases, ℤ, All,
}
use go_http_benchmark.Config.Processes.{
  System, process_name, proc_fs_pids, matched, found_by_name, find_processes_by_name, is_named,
  machine_of,
}
use go_http_benchmark.Config.LocalHost.{Network}
use go_http_benchmark.Config.Sampling.{find_server_process, server_process_name}
use go_http_benchmark.Config.Sampling.Ours.{only_found}

module _ (system : System) (name : Bytes) where
  abbrev Other : ℤ → Type 0
  Other pid = process_name system pid ≢ some name

  -- One place of the list has a process of the name, and no other.
  abbrev pub IsOnly : ℤ → List ℤ → Type 0
  IsOnly pid pids =
      (before : List ℤ) × (behind : List ℤ) × (pids ≡ before ++ pid ∷ behind)
      × (process_name system pid ≡ some name)
      × All Other before
      × All Other behind

  is_named-name : (o : Option Bytes) → is_named name o ≡ true → o ≡ some name
  is_named-name none h = cc
  is_named-name (some n) h = ap some ((equal_iff n name).0 h)

  is_named-false : (o : Option Bytes) → is_named name o ≡ false → o ≢ some name
  is_named-false none h e = cc
  is_named-false (some n) h e = absurd (cc (e, h, equal_refl name))

  matched-nil : (pids : List ℤ) → matched system name pids ≡ [] → All Other pids
  matched-nil [] h = tt
  matched-nil (p ∷ pids) h = elim (Bool-cases (is_named name (process_name system p))) [
    | inl e ↦ absurd (cc (rw e at h))
    | inr e ↦ (is_named-false (process_name system p) e, matched-nil pids (rw e at h))
  ]

  matched-one : (pid : ℤ) (pids : List ℤ) → matched system name pids ≡ pid ∷ [] → IsOnly pid pids
  matched-one pid [] h = absurd cc
  matched-one pid (p ∷ pids) h = elim (Bool-cases (is_named name (process_name system p))) [
    | inl e ↦
        let h' : p ∷ matched system name pids ≡ pid ∷ [] = rw e at h in
        let same : p ≡ pid = cc in
        let none_left : matched system name pids ≡ [] = cc in
        (
          [],
          pids,
          ap (λ (q : ℤ). q ∷ pids) same,
          ap (process_name system) (sym same) ∙ is_named-name (process_name system p) e,
          tt,
          matched-nil pids none_left,
        )
    | inr e ↦
        let (before, behind, split, at, b, a) = matched-one pid pids (rw e at h) in
        (
          p ∷ before,
          behind,
          ap (λ (ps : List ℤ). p ∷ ps) split,
          at,
          (is_named-false (process_name system p) e, b),
          a,
        )
  ]

found_by_name-matched :
    (system : System) (name : Bytes) (pids : List ℤ)
    → proc_fs_pids system ≡ some pids
    → find_processes_by_name system name ≡ some (matched system name pids)
unfolding find_processes_by_name
found_by_name-matched system name pids h = ap (found_by_name system name) h

some_injective : {A : Type 0} (a b : A) → some a ≡ some b → a ≡ b
some_injective a b h = cc

-- On a machine with a /proc that lists processes, the process that FindServerProcess finds is one
-- of them that runs under the name of the framework's server, and no other of them runs under it.
pub find_server_process-IsOnly :
    {Ip : Type 0} (system : System) (network : Network Ip) (is_readable : ℤ → Bool)
    (init_pid : Option ℤ) (framework : Bytes) (pid : ℤ) (pids : List ℤ)
    → proc_fs_pids system ≡ some pids
    → find_server_process (machine_of system network is_readable init_pid) framework ≡ some pid
    → IsOnly system (server_process_name framework) pid pids
find_server_process-IsOnly system network is_readable init_pid framework pid pids listed found =
    let e = only_found (machine_of system network is_readable init_pid) framework pid found in
    matched-one system (server_process_name framework) pid pids (
      some_injective _ _
        (sym (found_by_name-matched system (server_process_name framework) pids listed) ∙ e))
