-- ===== src/Config/Processes.antt =====
-- config/localps.go: the processes of this machine, and whether a host is this machine.
pub mod Only
use go_http_benchmark.Prelude.{
  ℕ, suc, Bool, true, false, not, ◌||◌, ◌&&◌, List, [], ◌∷◌, ◌++◌, Option, none, some, Bytes, codes,
  equal, ◌==◌, if◌then◌else◌, ℤ, pos, negsuc,
}
use go_http_benchmark.Config.Dials.{is_bracket}
use go_http_benchmark.Config.LocalHost.{Network, is_local_host}
use go_http_benchmark.Config.Sampling.{Machine}
use go_http_benchmark.Golib.Strconv.{atoi}
use go_http_benchmark.Golib.Text.{split, join, trim, trim_right, is_space}

-- What the operating system gives: whether there is a /proc, the names in it, the command lines of the
-- processes, and the output of ps for one process or for all.
pub record System : Type 0 where
  pub has_proc : Bool
  pub entries : Option (List Bytes)
  pub cmdline : ℤ → Option Bytes
  pub ps : Option ℤ → Option Bytes

abbrev last_part : List Bytes → Bytes
last_part [] = []
last_part (p ∷ []) = p
last_part (p ∷ q ∷ ps) = last_part (q ∷ ps)

abbrev is_slash : ℕ → Bool
is_slash c = c == b'/'

abbrev base_of : Bytes → Bytes
base_of [] = codes "/"
base_of (c ∷ s) = last_part (split (c ∷ s) b'/')

-- `filepath.Base`.
unfoldable pub base : Bytes → Bytes
unfolding split trim_right
base [] = codes "."
base (c ∷ s) = base_of (trim_right is_slash (c ∷ s))

abbrev first_part : List Bytes → Bytes
first_part [] = []
first_part (p ∷ ps) = p

abbrev named : Bytes → Option Bytes
named [] = none
named (c ∷ s) = some (base (c ∷ s))

abbrev argv_name : Option Bytes → Option Bytes
argv_name none = none
argv_name (some line) = named (first_part (split line 0))

-- `strings.Fields`: the parts between white space that are not empty.
abbrev push_field : Bool → ℕ → Bool → List Bytes → List Bytes
push_field true c fresh fs = fs
push_field false c true fs = (c ∷ []) ∷ fs
push_field false c false [] = (c ∷ []) ∷ []
push_field false c false (f ∷ fs) = (c ∷ f) ∷ fs

abbrev starts_blank : Bytes → Bool
starts_blank [] = true
starts_blank (c ∷ s) = is_space c

unfoldable pub fields : Bytes → List Bytes
fields [] = []
fields (c ∷ s) = push_field (is_space c) c (starts_blank s) (fields s)

abbrev same_int : ℤ → ℤ → Bool
same_int (pos n) (pos m) = n == m
same_int (negsuc n) (negsuc m) = n == m
same_int a b = false

-- The map `names`: a line for a process takes the place of an earlier one.
abbrev put_name : ℤ → Bytes → List (ℤ × Bytes) → List (ℤ × Bytes)
put_name pid name [] = (pid, name) ∷ []
put_name pid name ((q, n) ∷ names) =
    if same_int q pid then (pid, name) ∷ names else (q, n) ∷ put_name pid name names

abbrev put_parsed : Option ℤ → Bytes → List (ℤ × Bytes) → List (ℤ × Bytes)
put_parsed none name names = names
put_parsed (some pid) name names = put_name pid name names

abbrev put_fields : List Bytes → List (ℤ × Bytes) → List (ℤ × Bytes)
put_fields [] names = names
put_fields (f ∷ []) names = names
put_fields (f ∷ g ∷ fs) names = put_parsed (atoi f) (base (join (g ∷ fs) (codes " "))) names

abbrev put_lines : List Bytes → List (ℤ × Bytes) → List (ℤ × Bytes)
put_lines [] names = names
put_lines (l ∷ ls) names = put_lines ls (put_fields (fields l) names)

abbrev names_in : Option Bytes → Option (List (ℤ × Bytes))
names_in none = none
names_in (some out) = some (put_lines (split out b'\n') [])

abbrev name_at : ℤ → List (ℤ × Bytes) → Option Bytes
name_at pid [] = none
name_at pid ((q, n) ∷ names) = if same_int q pid then some n else name_at pid names

abbrev name_found : ℤ → Option (List (ℤ × Bytes)) → Option Bytes
name_found pid none = none
name_found pid (some names) = name_at pid names

abbrev pids_named : Bytes → List (ℤ × Bytes) → List ℤ
pids_named name [] = []
pids_named name ((q, n) ∷ names) =
    if equal n name then q ∷ pids_named name names else pids_named name names

abbrev pids_found : Bytes → Option (List (ℤ × Bytes)) → Option (List ℤ)
pids_found name none = none
pids_found name (some names) = some (pids_named name names)

abbrev push_pid : Option ℤ → List ℤ → List ℤ
push_pid none pids = pids
push_pid (some pid) pids = pid ∷ pids

abbrev pids_of : List Bytes → List ℤ
pids_of [] = []
pids_of (e ∷ es) = push_pid (atoi e) (pids_of es)

abbrev some_pids : List ℤ → Option (List ℤ)
some_pids [] = none
some_pids (p ∷ ps) = some (p ∷ ps)

abbrev listed_pids : Option (List Bytes) → Option (List ℤ)
listed_pids none = none
listed_pids (some es) = some_pids (pids_of es)

abbrev pub is_named : Bytes → Option Bytes → Bool
is_named name none = false
is_named name (some n) = equal n name

module _ (system : System) where
  -- `psNames`, for one process or for all.
  unfoldable pub ps_names : Option ℤ → Option (List (ℤ × Bytes))
  unfolding fields base atoi split join
  ps_names pid = names_in (system.ps pid)

  -- `psPidsByName`. Go walks a map in any order; FindServerProcess asks how many there are.
  unfoldable pub ps_pids_by_name : Bytes → Option (List ℤ)
  unfolding ps_names
  ps_pids_by_name name = pids_found name (ps_names none)

  -- `procFSPids`; `none` is its error.
  unfoldable pub proc_fs_pids : Option (List ℤ)
  unfolding atoi
  proc_fs_pids = listed_pids system.entries

  -- `processName`; `none` is its error.
  unfoldable pub process_name : ℤ → Option Bytes
  unfolding base split ps_names
  process_name pid =
      if system.has_proc
      then argv_name (system.cmdline pid)
      else name_found pid (ps_names (some pid))

  abbrev pub matched : Bytes → List ℤ → List ℤ
  matched name [] = []
  matched name (pid ∷ pids) =
      if is_named name (process_name pid) then pid ∷ matched name pids else matched name pids

  abbrev pub found_by_name : Bytes → Option (List ℤ) → Option (List ℤ)
  found_by_name name none = ps_pids_by_name name
  found_by_name name (some pids) = some (matched name pids)

  -- `findProcessesByName`.
  unfoldable pub find_processes_by_name : Bytes → Option (List ℤ)
  unfolding proc_fs_pids process_name ps_pids_by_name
  find_processes_by_name name = found_by_name name proc_fs_pids

-- This machine, of what the operating system and the network say.
abbrev pub machine_of : {Ip : Type 0} → System → Network Ip → (ℤ → Bool) → Option ℤ → Machine
machine_of system network is_readable init_pid = record {
  find_processes_by_name = find_processes_by_name system;
  process_name = process_name system;
  is_readable = is_readable;
  init_pid = init_pid;
  is_local_host = is_local_host network;
}
