-- ===== src/Config/Pids.antt =====
-- config/config.go: the requests to /init and /ps, with what a client makes of their answers.
pub mod Agree
use go_http_benchmark.Prelude.{
  ℕ, Bool, true, false, List, [], ◌∷◌, ◌++◌, Option, none, some, Bytes, codes, if◌then◌else◌, ℤ,
}
use go_http_benchmark.Config.Control.{Exchange, Requested, control_request}
use go_http_benchmark.Config.Ports.{framework_control_addr}
use go_http_benchmark.Golib.Strconv.{atoi}
use go_http_benchmark.Golib.Text.{trim_space}

-- `controlAttempts`.
abbrev pub control_attempts : ℕ
control_attempts = 4

-- The results of `InitAndGetFrameworkPid` where there is no error.
pub record Pid : Type 0 where
  pub pid : ℤ
  pub pprof_addr : Bytes

abbrev pub pid_of : Bytes → Option ℤ → Option Pid
pid_of addr none = none
pid_of addr (some pid) = some (record { pid = pid; pprof_addr = addr })

abbrev pub pid_from : Bytes → Option Bytes → Option Pid
pid_from addr none = none
pid_from addr (some body) = pid_of addr (atoi (trim_space body))

abbrev pub asked_at : (ℕ → Exchange) → Option Bytes → Option Pid
asked_at server none = none
asked_at server (some addr) =
    pid_from addr (control_request (addr ++ codes "/init") server control_attempts).reply

-- `InitAndGetFrameworkPid`; `server` says how each attempt of the request ends. `none` is
-- an error; no caller uses the results that come with one.
unfoldable pub init_and_get_framework_pid : Bytes → Bytes → (ℕ → Exchange) → Option Pid
unfolding framework_control_addr control_request atoi trim_space
init_and_get_framework_pid framework ip server =
    asked_at server (framework_control_addr framework ip)

-- A PSCounter with what is to be known of it.
pub record Read (A : Type 0) : Type 0 where
  pub counter : Option A
  pub failed : Bool

-- From the decoded body on: a counter without CPU samples is returned with an error.
abbrev counted : {A : Type 0} → (A → Bool) → Option A → Read A
counted no_cpu none = record { counter = none; failed = true }
counted no_cpu (some c) = record { counter = some c; failed = no_cpu c }

abbrev decoded : {A : Type 0} → (A → Bool) → (Bytes → Option A) → Option Bytes → Read A
decoded no_cpu unmarshal none = record { counter = none; failed = true }
decoded no_cpu unmarshal (some body) = counted no_cpu (unmarshal body)

abbrev read_at :
    {A : Type 0} → (A → Bool) → (Bytes → Option A) → (ℕ → Exchange) → Option Bytes → Read A
read_at no_cpu unmarshal server none = record { counter = none; failed = true }
read_at no_cpu unmarshal server (some addr) =
    decoded no_cpu unmarshal (control_request (addr ++ codes "/ps") server control_attempts).reply

-- `GetFrameworkPsInfo`; `unmarshal` is `json.Unmarshal` into a PSCounter, and `no_cpu` whether its
-- `CPUAvg` is at most 0.
unfoldable pub get_framework_ps_info :
    {A : Type 0} → (A → Bool) → (Bytes → Option A) → Bytes → Bytes → (ℕ → Exchange) → Read A
unfolding framework_control_addr control_request
get_framework_ps_info no_cpu unmarshal framework ip server =
    read_at no_cpu unmarshal server (framework_control_addr framework ip)

abbrev local_counter :
    {A S M : Type 0} → (List S → List M → A) → List S → List M → Option (Read A) → Read A
local_counter counter [] mem none = record { counter = some (counter [] mem); failed = true }
local_counter counter [] mem (some from_fallback) = from_fallback
local_counter counter (c ∷ cpu) mem fallback = record {
  counter = some (counter (c ∷ cpu) mem);
  failed = false;
}

-- `PsInfo` of LocalPSSampler, of its samples so far; `fallback` is what its fallback answers with,
-- where it has one, and `counter` a PSCounter of the samples.
unfoldable pub ps_info :
    {A S M : Type 0} → (List S → List M → A) → List S → List M → Option (Read A) → Read A
ps_info counter cpu mem fallback = local_counter counter cpu mem fallback
