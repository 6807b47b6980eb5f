-- ===== src/Tests/Bench.antt =====
-- Runs of BenchRate, and the configuration.
use go_http_benchmark.Prelude.{
  ℕ, ◌+◌, ◌*◌, ◌≡◌, ◌≤◌, ◌<◌, ◌⊎◌, refl, Bool, true, false, not, ◌&&◌, [], ◌∷◌, ◌++◌, none, some,
  arith, Bytes, codes, length, pos, replicate, suc, zero,
}
use go_http_benchmark.BenchRate.Responses.{responses_from, read_responses, read_one, Counts}
use go_http_benchmark.BenchRate.Responses.Counted.{
  responses_from-answers_text, Echoes, IsReturned, answers_text,
}
use go_http_benchmark.BenchRate.Responses.Ends.{read_responses_ends, IsCounted}
use go_http_benchmark.BenchRate.Sender.{
  Reachable, State, Conn, idle, do_once, start, step, test, wrote, sent_on,
}
use go_http_benchmark.BenchRate.Sender.InFlight.{in_flight, in_flight_reached}
use go_http_benchmark.BenchRate.Sender.Rounds.{do_once_lem, total_sent, total_received}
use go_http_benchmark.BenchRate.Start.{Settings, Ready, init, ready, wrong_pipeline, request_of}
use go_http_benchmark.BenchRate.Start.Ending.{init_lem, IsReady}
use go_http_benchmark.Config.Control.{Exchange, not_sent, response, control_request}
use go_http_benchmark.Config.Control.Retries.{control_request_settled, Settles, Unanswered}
use go_http_benchmark.Config.Ports.{among, framework_list, get_framework_benchmark_ports}
use go_http_benchmark.Config.Ports.Blocks.{framework_ports_lem, HasBlock}
use go_http_benchmark.Golib.Reader.{holding}
use go_http_benchmark.Golib.Slice.{Slice, nil}
use go_http_benchmark.Protocol.Batch.{PipelineError, validate_pipeline}
use go_http_benchmark.Tests.Protocol.{ok_answer, ok_answer-IsAnswer, idle_reader, reader_runs}

abbrev no_counts : Counts
no_counts = record { recv_cnt = 0; answered = 0; recv_times = 0; recv_bytes = 0 }

-- A connection that the server closed: every read of a response is an error.
closed :
    (check_valid : Bool) (body : Slice)
    → IsReturned (read_one check_valid (holding idle_reader []) body).error
unfolding reader_runs
closed true body = refl
closed false body = refl

responses_from-answers_text_example :
    let e =
      responses_from true
        (codes "hi")
        3
        (holding idle_reader (answers_text (ok_answer ∷ ok_answer ∷ []) ++ []))
        nil
        no_counts in
    Echoes 2 2 no_counts e.counts × (e.broken ≡ true) × (e.in_time ≡ true)
responses_from-answers_text_example =
    responses_from-answers_text true (codes "hi") idle_reader [] (closed true)
      (ok_answer ∷ ok_answer ∷ []) 3 nil no_counts
      ((ok_answer-IsAnswer, refl), ((ok_answer-IsAnswer, refl), tt)) (omega arith)

read_responses_ends_example :
    let e =
      read_responses false [] (holding idle_reader (codes "HTTP/1.1 200 OK\r\n\r\n")) no_counts in
    (e.in_time ≡ true)
    × (e.broken ≡ not e.panicked)
    × ((e.panicked && not false) ≡ false)
    × IsCounted e.counts
read_responses_ends_example =
    read_responses_ends false [] (holding idle_reader (codes "HTTP/1.1 200 OK\r\n\r\n")) no_counts
      (omega arith)

abbrev fresh_conn : Conn
fresh_conn = record { send_cnt = 0; recv_cnt = 0 }

in_flight_example : 10 < 0 + 5 * 10
in_flight_example =
    in_flight 10 (record { conn = sent_on 10 fresh_conn; phase = idle }) (omega arith)
      (step (step start (test fresh_conn refl)) (wrote fresh_conn))

in_flight_reached_example :
    (s : State) × Reachable 10 s × (s.conn.send_cnt + 1 ≡ s.conn.recv_cnt + 5 * 10)
in_flight_reached_example = in_flight_reached 10 (omega arith)

do_once_lem_example :
    let r =
      do_once 10 4
        (λ i. true)
        0
        (fresh_conn ∷ record { send_cnt = 90; recv_cnt = 50 } ∷ [])
        (record { send_times = 0; send_bytes = 0 })
        0 in
    (r.sent.send_times + 10 * 0 ≡ 0 + 10 * r.writes)
    × (r.sent.send_bytes + 4 * 0 ≡ 0 + 4 * r.sent.send_times)
    × (total_sent r.conns + 0
        ≡ total_sent (fresh_conn ∷ record { send_cnt = 90; recv_cnt = 50 } ∷ [])
          + r.sent.send_times)
    × (total_received r.conns
        ≡ total_received (fresh_conn ∷ record { send_cnt = 90; recv_cnt = 50 } ∷ []))
    × (length r.conns ≡ 2)
do_once_lem_example =
    do_once_lem 10 4 (λ i. true) 0 (fresh_conn ∷ record { send_cnt = 90; recv_cnt = 50 } ∷ [])
      (record { send_times = 0; send_bytes = 0 }) 0

abbrev zeros : ℕ → Bytes
zeros n = replicate n 0

abbrev some_settings : Settings
some_settings = record {
  ip = codes "::1";
  duration = pos 0;
  concurrency = pos 8;
  send_rate = pos 200;
  batch_size = pos 16384;
  pipeline = pos 20;
  payload = pos 3;
  ps_interval = pos 0;
  conns = 5;
}

init_lem_example :
    ((e : PipelineError) × (validate_pipeline (pos 20) (pos 200) ≡ some e)
      × (init zeros some_settings ≡ wrong_pipeline e))
    ⊎ ((r : Ready) × (init zeros some_settings ≡ ready r)
        × IsReady some_settings (request_of (codes "::1") (zeros 3)) r)
init_lem_example = init_lem zeros some_settings (omega arith)

-- A server that answers at the third attempt.
abbrev slow : ℕ → Exchange
slow (suc (suc (suc n))) = response 200 (codes "200 OK") (codes "pid")
slow n = not_sent (codes "timeout")

slow_before : (j : ℕ) → 1 ≤ j → j < 3 → Unanswered slow j
slow_before zero l h = elim l [ ]
slow_before (suc zero) l h = tt
slow_before (suc (suc zero)) l h = tt
slow_before (suc (suc (suc j))) l h = absurd (omega arith)

control_request_settled_example :
    let q = control_request (codes "url") slow 4 in
    Settles (codes "url") 200 (codes "200 OK") (codes "pid") q × (q.made ≡ 3)
control_request_settled_example =
    control_request_settled (codes "url") slow 4 3 200 (codes "200 OK") (codes "pid") (omega arith)
      (omega arith) slow_before refl

framework_ports_lem_example :
    ((among (codes "gin") framework_list ≡ true) × HasBlock (codes "gin"))
    ⊎ ((among (codes "gin") framework_list ≡ false)
        × (get_framework_benchmark_ports (codes "gin") ≡ none))
framework_ports_lem_example = framework_ports_lem (codes "gin")
