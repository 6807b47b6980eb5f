-- ===== src/BenchRate/Sender/InFlight.antt =====
-- The requests that a connection may have unanswered.
use go_http_benchmark.Prelude.{subst, ◌≡◌, false, ℕ, ◌+◌, ◌*◌, ◌≤◌, ◌<◌, arith}
use go_http_benchmark.BenchRate.Sender.{
  is_full, sent_on, Conn, Phase, idle, writing, State, Step, skip, test, wrote, not_written,
  answered, Reachable, start, step,
}

-- Less than four batches unanswered where the sender is about to write, and less than five else.
abbrev Bounded : ℕ → Conn → Phase → Type 0
Bounded batch c idle = c.send_cnt < c.recv_cnt + 5 * batch
Bounded batch c writing = c.send_cnt < c.recv_cnt + 4 * batch

Step-Bounded :
    (batch : ℕ) {s t : State}
    → 1 ≤ batch
    → Step batch s t
    → Bounded batch s.conn s.phase
    → Bounded batch t.conn t.phase
Step-Bounded batch b (skip c e) h = h
Step-Bounded batch b (test c e) h = ground (arith, e)
Step-Bounded batch b (wrote c) h = omega (arith, h)
Step-Bounded batch b (not_written c) h = omega (arith, h)
Step-Bounded batch b (answered c idle) h = omega (arith, h)
Step-Bounded batch b (answered c writing) h = omega (arith, h)

Reachable-Bounded :
    (batch : ℕ) {s : State} → 1 ≤ batch → Reachable batch s → Bounded batch s.conn s.phase
Reachable-Bounded batch b start = omega arith
Reachable-Bounded batch b (step r x) = Step-Bounded batch b x (Reachable-Bounded batch b r)

-- However the sender and the reader of a connection interleave, and whichever writes fail, the
-- connection never has five batches of requests or more unanswered.
pub in_flight :
    (batch : ℕ) (s : State)
    → 1 ≤ batch
    → Reachable batch s
    → s.conn.send_cnt < s.conn.recv_cnt + 5 * batch
in_flight batch s b r = go s.conn s.phase (Reachable-Bounded batch b r)
  where
    go : (c : Conn) (p : Phase) → Bounded batch c p → c.send_cnt < c.recv_cnt + 5 * batch
    go c idle h = h
    go c writing h = omega (arith, h)

write_step :
    (batch : ℕ) (c : Conn)
    → is_full batch c ≡ false
    → Reachable batch (record { conn = c; phase = idle })
    → Reachable batch (record { conn = sent_on batch c; phase = idle })
write_step batch c h r = step (step r (test c h)) (wrote c)

-- Five batches less one request are reached: the sender writes four batches, one response comes,
-- and the sender writes the next batch.
pub in_flight_reached :
    (batch : ℕ)
    → 1 ≤ batch
    → (s : State) × Reachable batch s × (s.conn.send_cnt + 1 ≡ s.conn.recv_cnt + 5 * batch)
in_flight_reached batch b =
    let c : Conn = record { send_cnt = batch + batch + batch + batch; recv_cnt = 1 } in
    let e : 0 + batch ≡ batch = omega arith in
    let one =
      subst
        (λ n.
          Reachable batch (record { conn = record { send_cnt = n; recv_cnt = 0 }; phase = idle }))
        e (write_step batch (record { send_cnt = 0; recv_cnt = 0 }) (ground arith) start) in
    (
      record { conn = sent_on batch c; phase = idle },
      write_step batch c (ground arith) (
          step
            (write_step batch (record { send_cnt = batch + batch + batch; recv_cnt = 0 })
              (ground arith)
              (write_step batch (record { send_cnt = batch + batch; recv_cnt = 0 }) (ground arith)
                (write_step batch (record { send_cnt = batch; recv_cnt = 0 }) (ground arith) one)))
            (answered (record { send_cnt = batch + batch + batch + batch; recv_cnt = 0 }) idle)),
      omega arith,
    )
