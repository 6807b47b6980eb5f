-- ===== src/Tests/Machine.antt =====
-- Connections, echoes and samples.
use go_http_benchmark.Prelude.{
  ◌↔◌, ℕ, zero, suc, ◌≡◌, refl, true, List, [], ◌∷◌, ◌++◌, none, some, Bytes, codes, arith, pos,
  equal, if◌then◌else◌,
}
use go_http_benchmark.BenchEcho.{Outcomes, do_once}
use go_http_benchmark.BenchEcho.Synced.{do_once-answer_text, standing}
use go_http_benchmark.Config.Sampling.{Machine, setup_ps, Tick, missed, read, run}
use go_http_benchmark.Config.Sampling.Loop.{run_lem, read_of}
use go_http_benchmark.Config.Sampling.Ours.{setup_ps-IsSafe, IsSafe}
use go_http_benchmark.Connections
use go_http_benchmark.Connections.{
  Attempt, refused, accepted, dial, dialed, not_dialed, wrong_status,
}
use go_http_benchmark.Connections.Retries.{do_once-IsDone, IsDone}
use go_http_benchmark.Golib.Reader.{eof}
use go_http_benchmark.Golib.Slice.{nil}
use go_http_benchmark.Protocol.Response.Answer.{answer_text}
use go_http_benchmark.Tests.Protocol.{ok_answer, ok_answer-IsAnswer, idle_reader}

-- A server that takes the second connection.
abbrev second_taken : ℕ → Bytes → Attempt
second_taken zero addr = refused (codes "refused")
second_taken (suc i) addr = accepted none (answer_text ok_answer) eof

abbrev two_addrs : List Bytes
two_addrs = codes "h:1" ∷ codes "h:2" ∷ []

do_once-IsDone_example :
    IsDone 4096 two_addrs suc second_taken 0 3 []
      (Connections.do_once 4096 two_addrs suc second_taken 3 [])
do_once-IsDone_example = do_once-IsDone 4096 two_addrs suc second_taken 2 []

abbrev ok_outcomes : Outcomes
ok_outcomes = record {
  redials = refused [];
  write_error = none;
  arrives = answer_text ok_answer ++ codes "HTTP";
}

do_once-answer_text_example :
    let d = do_once true (codes "hi") ok_outcomes nil (standing [] idle_reader [] ∷ []) in
    (d.conns ≡ standing [] idle_reader (codes "HTTP") ∷ [])
    × ((d.error ≡ none) ↔ (◌≡◌ {A = ℕ} 200 200 × (codes "hi" ≡ codes "hi")))
do_once-answer_text_example =
    do_once-answer_text true (codes "hi") ok_outcomes nil [] idle_reader [] 200 ok_answer
      (codes "HTTP") refl refl ok_answer-IsAnswer

-- A machine on which the server of gin is the process 7.
abbrev one_server : Machine
one_server = record {
  find_processes_by_name =
      λ name. if equal name (codes "gin.server") then some (pos 7 ∷ []) else some [];
  process_name = λ pid. some (codes "gin.server");
  is_readable = λ pid. true;
  init_pid = none;
  is_local_host = λ ip. true;
}

setup_ps-IsSafe_example :
    IsSafe one_server
      (codes "gin")
      (codes "::1")
      (codes "auto")
      (setup_ps one_server (codes "gin") (codes "::1") (codes "auto")).source
setup_ps-IsSafe_example = setup_ps-IsSafe one_server (codes "gin") (codes "::1") (codes "auto")

abbrev some_ticks : List (Tick ℕ ℕ)
some_ticks = read 3 none ∷ missed ∷ missed ∷ read 4 (some 9) ∷ missed ∷ []

run_lem_example : (run some_ticks).cpu ≡ read_of some_ticks
run_lem_example = run_lem some_ticks (λ g. absurd (ground (arith, g)))
