-- ===== src/Config/Sampling.antt =====
-- config/pssource.go and config/localps.go: where a run takes the samples of the server's CPU and
-- memory from, and the loop that takes them on this machine.
pub mod Ours
pub mod Loop
use go_http_benchmark.Prelude.{
  ℕ, zero, suc, Bool, true, false, not, ◌&&◌, ◌||◌, List, [], ◌∷◌, ◌++◌, Option, none, some, Bytes,
  codes, equal, leb, if◌then◌else◌, ℤ, pos, negsuc,
}
use go_http_benchmark.Config.Ports.{framework_control_addr}

-- `ValidatePSMode`: whether there is no error.
unfoldable pub validate_ps_mode : Bytes → Bool
validate_ps_mode mode =
    equal mode (codes "auto") || equal mode (codes "local") || equal mode (codes "remote")

-- `ServerProcessName`.
abbrev pub server_process_name : Bytes → Bytes
server_process_name framework = framework ++ codes ".server"

-- This machine and the server: the processes of a name and the name of a process, where the
-- operating system gives them, whether a process can be read, the pid that /init answers with, and
-- whether a host is this machine.
pub record Machine : Type 0 where
  pub find_processes_by_name : Bytes → Option (List ℤ)
  pub process_name : ℤ → Option Bytes
  pub is_readable : ℤ → Bool
  pub init_pid : Option ℤ
  pub is_local_host : Bytes → Bool

-- `PSSource`: the server's own samples, or a sampler of a process here, with the server's samples
-- behind it or not.
pub data Source : Type 0 where
  remote : Source
  local : ℤ → Bool → Source

-- `PSSetup`; `failed` says that there is an error with it.
pub record Setup : Type 0 where
  pub source : Source
  pub server_pid : ℤ
  pub pprof_addr : Bytes
  pub failed : Bool

abbrev only : List ℤ → Option ℤ
only [] = none
only (pid ∷ []) = some pid
only (pid ∷ q ∷ pids) = none

abbrev only_of : Option (List ℤ) → Option ℤ
only_of none = none
only_of (some pids) = only pids

abbrev is_name : Bytes → Option Bytes → Bool
is_name want none = false
is_name want (some name) = equal name want

abbrev is_positive : ℤ → Bool
is_positive (pos (suc n)) = true
is_positive (pos zero) = false
is_positive (negsuc n) = false

module _ (machine : Machine) where
  -- `FindServerProcess`; `none` is its error.
  unfoldable pub find_server_process : Bytes → Option ℤ
  find_server_process framework =
      only_of (machine.find_processes_by_name (server_process_name framework))

  -- `VerifyServerProcess`: whether there is no error.
  unfoldable pub verify_server_process : ℤ → Bytes → Bool
  verify_server_process pid framework =
      is_name (server_process_name framework) (machine.process_name pid)

  -- `StartLocalPSSampler`: whether there is no error. The code reads the process at `int32(pid)`, which
  -- is the pid where it fits 32 bits, as those of running processes do.
  unfoldable pub starts : ℤ → Bool
  starts pid = is_positive pid && machine.is_readable pid

  abbrev pub want_local : Bytes → Bytes → Bool
  want_local mode ip =
      equal mode (codes "local") || (equal mode (codes "auto") && machine.is_local_host ip)

  -- From the request to /init on.
  abbrev pub asked : Bytes → Bytes → Bool → Option ℤ → Setup
  asked framework addr wanted none = record {
    source = remote;
    server_pid = negsuc 0;
    pprof_addr = addr;
    failed = true;
  }
  asked framework addr wanted (some pid) = record {
    source =
        if wanted && (verify_server_process pid framework && starts pid)
        then local pid true
        else remote;
    server_pid = pid;
    pprof_addr = addr;
    failed = false;
  }

  abbrev pub found : Bytes → Bytes → Option ℤ → Setup
  found framework addr none = asked framework addr true machine.init_pid
  found framework addr (some pid) =
      if starts pid
      then record { source = local pid false; server_pid = pid; pprof_addr = addr; failed = false }
      else asked framework addr true machine.init_pid

  abbrev pub with_addr : Bytes → Bytes → Bytes → Option Bytes → Setup
  with_addr framework ip mode none = record {
    source = remote;
    server_pid = negsuc 0;
    pprof_addr = [];
    failed = true;
  }
  with_addr framework ip mode (some addr) =
      if want_local mode ip
      then found framework addr (find_server_process framework)
      else asked framework addr false machine.init_pid

  -- `SetupPS`.
  unfoldable pub setup_ps : Bytes → Bytes → Bytes → Setup
  unfolding find_server_process verify_server_process starts framework_control_addr
  setup_ps framework ip mode = with_addr framework ip mode (framework_control_addr framework ip)

-- What one `PercentWithContext` and the `MemoryInfo` behind it give.
pub data Tick (A B : Type 0) : Type 0 where
  missed : Tick A B
  read : A → Option B → Tick A B

-- The samples of a sampler, and the failures in a row behind which it gave up, or 0 where it was
-- stopped.
pub record Samples (A B : Type 0) : Type 0 where
  pub cpu : List A
  pub mem : List B
  pub gave_up : ℕ

-- `consecutiveSampleErrors`.
abbrev pub consecutive_sample_errors : ℕ
consecutive_sample_errors = 5

abbrev pub kept : {A B : Type 0} → A → Option B → Samples A B → Samples A B
kept c none s = record s { cpu = c ∷ s.cpu }
kept c (some m) s = record s { cpu = c ∷ s.cpu; mem = m ∷ s.mem }

-- The loop of `run` over the ticks up to the sampler's stop, `errors` of the last ones missed.
unfoldable pub run_from : {A B : Type 0} → ℕ → List (Tick A B) → Samples A B
run_from errors [] = record { cpu = []; mem = []; gave_up = 0 }
run_from errors (missed ∷ ticks) = elim (leb consecutive_sample_errors (suc errors)) [
  | true ↦ record { cpu = []; mem = []; gave_up = suc errors }
  | false ↦ run_from (suc errors) ticks
]
run_from errors (read c m ∷ ticks) = kept c m (run_from 0 ticks)

-- `run`.
unfoldable pub run : {A B : Type 0} → List (Tick A B) → Samples A B
unfolding run_from
run ticks = run_from 0 ticks
