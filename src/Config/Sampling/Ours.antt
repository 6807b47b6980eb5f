-- ===== src/Config/Sampling/Ours.antt =====
-- The process that is sampled is the framework's server.
use go_http_benchmark.Prelude.{
  ◌≡◌, inl, inr, refl, ap, Bool, true, false, List, [], ◌∷◌, none, some, Option, Bytes, equal_iff,
  ℤ, Bool-cases,
}
use go_http_benchmark.Config.Ports.{framework_control_addr}
use go_http_benchmark.Config.Sampling.{
  Machine, Source, remote, local, find_server_process, verify_server_process, starts,
  server_process_name, want_local, asked, found, with_addr, setup_ps, only_of, is_name,
}

module _ (machine : Machine) where
  -- The only process here of the name that the framework's server is built under, or one with that
  -- name that the server gave the pid of.
  abbrev pub IsServer : Bytes → ℤ → Bool → Type 0
  IsServer framework pid false =
      machine.find_processes_by_name (server_process_name framework) ≡ some (pid ∷ [])
  IsServer framework pid true =
      (machine.init_pid ≡ some pid)
      × (machine.process_name pid ≡ some (server_process_name framework))

  abbrev pub IsSafe : Bytes → Bytes → Bytes → Source → Type 0
  IsSafe framework ip mode remote = Unit
  IsSafe framework ip mode (local pid fallback) =
      IsServer framework pid fallback
      × (starts machine pid ≡ true)
      × (want_local machine mode ip ≡ true)

  name_of :
      (framework : Bytes) (pid : ℤ)
      → verify_server_process machine pid framework ≡ true
      → machine.process_name pid ≡ some (server_process_name framework)
  unfolding verify_server_process
  name_of framework pid h = go (machine.process_name pid) h
    where
      go :
          (o : Option Bytes)
          → is_name (server_process_name framework) o ≡ true
          → o ≡ some (server_process_name framework)
      go none h = absurd cc
      go (some name) h = ap some ((equal_iff name (server_process_name framework)).0 h)

  pub only_found :
      (framework : Bytes) (pid : ℤ)
      → find_server_process machine framework ≡ some pid
      → machine.find_processes_by_name (server_process_name framework) ≡ some (pid ∷ [])
  unfolding find_server_process
  only_found framework pid h = go (machine.find_processes_by_name (server_process_name framework)) h
    where
      go : (o : Option (List ℤ)) → only_of o ≡ some pid → o ≡ some (pid ∷ [])
      go none h = absurd cc
      go (some []) h = absurd cc
      go (some (p ∷ [])) h = cc
      go (some (p ∷ q ∷ ps)) h = absurd cc

  asked-IsSafe :
      (framework ip mode addr : Bytes) (o : Option ℤ)
      → machine.init_pid ≡ o
      → want_local machine mode ip ≡ true
      → IsSafe framework ip mode (asked machine framework addr true o).source
  asked-IsSafe framework ip mode addr none h w = tt
  asked-IsSafe framework ip mode addr (some pid) h w =
      elim (Bool-cases (verify_server_process machine pid framework)) [
        | inl v ↦ elim (Bool-cases (starts machine pid)) [
          | inl s ↦ rw (v, s) ((h, name_of framework pid v), s, w)
          | inr s ↦ rw (v, s) tt
        ]
        | inr v ↦ rw v tt
      ]

  found-IsSafe :
      (framework ip mode addr : Bytes) (o : Option ℤ)
      → find_server_process machine framework ≡ o
      → want_local machine mode ip ≡ true
      → IsSafe framework ip mode (found machine framework addr o).source
  found-IsSafe framework ip mode addr none h w = asked-IsSafe framework ip mode addr _ refl w
  found-IsSafe framework ip mode addr (some pid) h w = elim (Bool-cases (starts machine pid)) [
    | inl s ↦ rw s (only_found framework pid h, s, w)
    | inr s ↦ rw s (asked-IsSafe framework ip mode addr _ refl w)
  ]

  not_wanted :
      (framework ip mode addr : Bytes) (o : Option ℤ)
      → IsSafe framework ip mode (asked machine framework addr false o).source
  not_wanted framework ip mode addr none = tt
  not_wanted framework ip mode addr (some pid) = tt

  -- A process that SetupPS samples on this machine is the framework's server: the only process here
  -- that has its name, or one with its name whose pid the server itself gave, and then with the
  -- server's own samples to fall back on. It can be read, and local sampling was wanted.
  pub setup_ps-IsSafe :
      (framework ip mode : Bytes)
      → IsSafe framework ip mode (setup_ps machine framework ip mode).source
  unfolding setup_ps
  setup_ps-IsSafe framework ip mode = go (framework_control_addr framework ip)
    where
      go :
          (o : Option Bytes)
          → IsSafe framework ip mode (with_addr machine framework ip mode o).source
      go none = tt
      go (some addr) = elim (Bool-cases (want_local machine mode ip)) [
        | inl w ↦ rw w (found-IsSafe framework ip mode addr _ refl w)
        | inr w ↦ rw w (not_wanted framework ip mode addr machine.init_pid)
      ]
