-- ===== src/Tests/Runs.antt =====
-- The connections of a run, and what runs on this machine.
use go_http_benchmark.Prelude.{
  length, ◌+◌, ℕ, zero, suc, ◌<◌, ◌≤◌, ◌≡◌, refl, true, false, List, [], ◌∷◌, ◌++◌, Option, none,
  some, Bytes, codes, arith, pos, negsuc, ℤ, map, if◌then◌else◌, ◌==◌,
}
use mathlib.Core.List.{Perm}
use go_http_benchmark.BenchEcho.Workers.{takes, held, placed, places}
use go_http_benchmark.BenchEcho.Workers
use go_http_benchmark.BenchEcho.Workers.Whole.{workers_lem, idle}
use go_http_benchmark.BenchRate.Run.{conn_teams}
use go_http_benchmark.BenchRate.Run.Snapshot
use go_http_benchmark.BenchRate.Run.Snapshot.{answers, first_responses, snapshot_bounds}
use go_http_benchmark.BenchRate.Run.Teams.{conn_teams-IsShared, IsShared}
use go_http_benchmark.Config.Control.{Exchange, not_sent}
use go_http_benchmark.Config.Control.Retries.{Unanswered}
use go_http_benchmark.Config.Dials.{get_framework_benchmark_addrs}
use go_http_benchmark.Config.Dials.Match.{get_framework_benchmark_addrs_lem, bracketed}
use go_http_benchmark.Config.LocalHost.{Network}
use go_http_benchmark.Config.Pids.{init_and_get_framework_pid}
use go_http_benchmark.Config.Pids.Agree.{init_and_get_framework_pid_lem, sent}
use go_http_benchmark.Config.Ports.{
  get_framework_server_addrs, framework_control_addr, url_host, on_some,
}
use go_http_benchmark.Config.Processes.{
  System, proc_fs_pids, find_processes_by_name, process_name, machine_of, base,
}
use go_http_benchmark.Config.Sampling.{find_server_process, server_process_name}
use go_http_benchmark.Config.Processes.Only.{find_server_process-IsOnly, IsOnly}
use go_http_benchmark.Connections.{Conn}
use go_http_benchmark.Servers.Control
use go_http_benchmark.Servers.Control.{waiting, arrives, reads, swaps, swap, pid_text}
use go_http_benchmark.Golib.Strconv.{itoa}
use go_http_benchmark.Tests.Protocol.{idle_reader}
use go_http_benchmark.Golib.Reader.{holding}
use go_http_benchmark.Tests.Servers.{started, interval_of}

conn_teams-IsShared_example :
    IsShared {A = ℕ} 2 (10 ∷ 11 ∷ 12 ∷ []) (conn_teams {A = ℕ} 2 (10 ∷ 11 ∷ 12 ∷ []))
conn_teams-IsShared_example = conn_teams-IsShared {A = ℕ} 2 (10 ∷ 11 ∷ 12 ∷ []) (omega arith)

abbrev conn_to : Bytes → Conn
conn_to addr = record { addr = addr; reader = holding idle_reader []; broken = false }

abbrev two_conns : List Conn
two_conns = conn_to (codes "h:1") ∷ conn_to (codes "h:2") ∷ []

abbrev one_taken : Workers.State
one_taken = record {
  channel = (1, conn_to (codes "h:2")) ∷ [];
  workers = some (0, conn_to (codes "h:1")) ∷ none ∷ [];
}

one_taken-Reachable : Workers.Reachable true 2 two_conns one_taken
one_taken-Reachable =
    Workers.step Workers.start
      (takes (0, conn_to (codes "h:1")) ((1, conn_to (codes "h:2")) ∷ []) [] (none ∷ []))

workers_lem_example :
    Perm (places (one_taken.channel ++ held one_taken.workers)) (places (placed 0 two_conns))
    × (idle one_taken.workers ≤ length one_taken.channel)
workers_lem_example = workers_lem true 2 two_conns one_taken one_taken-Reachable (omega arith)

get_framework_benchmark_addrs_lem_example :
    get_framework_benchmark_addrs (codes "gin") (codes "[::1]")
    ≡ on_some
        (map (λ addr. url_host (codes "[::1]") ++ addr))
        (get_framework_server_addrs (codes "gin"))
get_framework_benchmark_addrs_lem_example =
    get_framework_benchmark_addrs_lem (codes "gin") (codes "[::1]")
      (bracketed (codes "::1") (refl, (refl, (refl, tt))) refl)

-- A server that answers the second attempt.
abbrev second_answered : ℕ → Exchange
second_answered (suc (suc k)) = sent (pid_text (itoa 12))
second_answered (suc zero) = not_sent (codes "timeout")
second_answered zero = not_sent (codes "timeout")

first_lost : (j : ℕ) → 1 ≤ j → j < 2 → Unanswered second_answered j
first_lost zero l h = absurd (omega arith)
first_lost (suc zero) l h = tt
first_lost (suc (suc j)) l h = absurd (omega arith)

gin_control : framework_control_addr (codes "gin") (codes "h") ≡ some (codes "http://h:10251")
unfolding framework_control_addr
gin_control = refl

answers_pid : second_answered 2 ≡ sent (Control.init interval_of 12 (some (codes "ms")) started).0
unfolding Control.init
answers_pid = refl

init_and_get_framework_pid_lem_example :
    init_and_get_framework_pid (codes "gin") (codes "h") second_answered
    ≡ some (record { pid = pos 12; pprof_addr = codes "http://h:10251" })
init_and_get_framework_pid_lem_example =
    init_and_get_framework_pid_lem (codes "gin") (codes "h") (codes "http://h:10251") (codes "ms")
      interval_of 12 2 started second_answered gin_control (omega arith) (omega arith) (omega arith)
      first_lost answers_pid

-- A machine with two processes.
abbrev command_of : ℤ → Option Bytes
command_of (pos n) =
    if n == 7
    then some (codes "./output/bin/gin.server" ++ (0 ∷ codes "-b=1"))
    else some (codes "sh")
command_of (negsuc n) = none

abbrev two_processes : System
two_processes = record {
  has_proc = true;
  entries = some (codes "3" ∷ codes "7" ∷ codes "self" ∷ []);
  cmdline = command_of;
  ps = λ pid. none;
}

abbrev no_network : Network Bytes
no_network = record {
  parse_ip = λ host. none;
  lookup_ip = λ host. none;
  interface_addrs = none;
  is_loopback = λ ip. false;
  is_unspecified = λ ip. false;
  ip_text = λ ip. ip;
}

two_listed : proc_fs_pids two_processes ≡ some (pos 3 ∷ pos 7 ∷ [])
unfolding proc_fs_pids
two_listed = refl

gin_found :
    find_server_process (machine_of two_processes no_network (λ pid. true) none) (codes "gin")
    ≡ some (pos 7)
unfolding find_server_process find_processes_by_name process_name proc_fs_pids base
gin_found = refl

find_server_process-IsOnly_example :
    IsOnly two_processes (server_process_name (codes "gin")) (pos 7) (pos 3 ∷ pos 7 ∷ [])
find_server_process-IsOnly_example =
    find_server_process-IsOnly two_processes no_network (λ pid. true) none (codes "gin") (pos 7)
      (pos 3 ∷ pos 7 ∷ []) two_listed gin_found

-- One connection of two has its response, which is not counted yet.
abbrev half_answered : Snapshot.Counters
half_answered = record { answered = 1; recv_times = 0; wrong = 0; readers = true ∷ false ∷ [] }

half_answered-Reachable : Snapshot.Reachable 2 half_answered
half_answered-Reachable = Snapshot.step Snapshot.start (answers 0 0 0 [] (false ∷ []))

snapshot_bounds_example :
    (1 ≤ half_answered.recv_times + half_answered.wrong + 2)
    × (half_answered.recv_times + half_answered.wrong ≤ half_answered.answered)
    × Snapshot.Reachable 2 (first_responses 2 0)
snapshot_bounds_example = snapshot_bounds 2 1 half_answered half_answered-Reachable (omega arith)
