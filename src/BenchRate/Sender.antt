-- ===== src/BenchRate/Sender.antt =====
-- benchcli-go/benchrate/benchrate.go: one round of a sender over its connections, and the sender
-- and the reader of one connection side by side.
pub mod InFlight
pub mod Rounds
use go_http_benchmark.Prelude.{
  ◌≡◌, ℕ, zero, suc, ◌+◌, ◌-◌, ◌*◌, Bool, true, false, List, [], ◌∷◌, leb, if◌then◌else◌,
}

-- `conn`, as far as the run keeps count of it.
pub record Conn : Type 0 where
  pub send_cnt : ℕ
  pub recv_cnt : ℕ

-- The counters of BenchRate that `doOnce` adds to.
pub record Sent : Type 0 where
  pub send_times : ℕ
  pub send_bytes : ℕ

-- `maxBatchesInFlight`.
abbrev pub max_batches_in_flight : ℕ
max_batches_in_flight = 4

-- `sendCnt - recvCnt >= batch * maxBatchesInFlight`, where the difference may be negative.
abbrev pub is_full : ℕ → Conn → Bool
is_full batch c = leb (c.recv_cnt + batch * max_batches_in_flight) c.send_cnt

abbrev pub sent_on : ℕ → Conn → Conn
sent_on batch c = record c { send_cnt = c.send_cnt + batch }

abbrev pub add_sent : ℕ → ℕ → Sent → Sent
add_sent batch payload s = record {
  send_times = s.send_times + batch;
  send_bytes = s.send_bytes + batch * payload;
}

-- What `doOnce` leaves: the connections, the counters and the writes that it made.
pub record Round : Type 0 where
  pub conns : List Conn
  pub sent : Sent
  pub writes : ℕ

abbrev pub in_front : Conn → Round → Round
in_front c r = record r { conns = c ∷ r.conns }

-- `doOnce`, from the `i`th connection on: `works` says of each connection whether a write to it
-- succeeds; a connection that is full is not written to.
unfoldable pub do_once : ℕ → ℕ → (ℕ → Bool) → ℕ → List Conn → Sent → ℕ → Round
do_once batch payload works i [] s n = record { conns = []; sent = s; writes = n }
do_once batch payload works i (c ∷ cs) s n = elim (is_full batch c) [
  | true ↦ in_front c (do_once batch payload works (suc i) cs s n)
  | false ↦ elim (works i) [
    | true ↦
        in_front (sent_on batch c)
          (do_once batch payload works (suc i) cs (add_sent batch payload s) (suc n))
    | false ↦ in_front c (do_once batch payload works (suc i) cs s n)
  ]
]

-- Where the sender of a connection is: between two rounds, or behind the test that let it write.
pub data Phase : Type 0 where
  idle writing : Phase

pub record State : Type 0 where
  pub conn : Conn
  pub phase : Phase

abbrev at_phase : State → Phase → State
at_phase s p = record s { phase = p }

-- One step of the sender or of the reader of one connection, in any order. The test reads the two
-- counts, the count goes up behind the write, and the reader counts a response at any time.
pub data Step (batch : ℕ) : State → State → Type 0 where
  skip :
      (c : Conn)
      → is_full batch c ≡ true
      → Step batch (record { conn = c; phase = idle }) (record { conn = c; phase = idle })
  test :
      (c : Conn)
      → is_full batch c ≡ false
      → Step batch (record { conn = c; phase = idle }) (record { conn = c; phase = writing })
  wrote :
      (c : Conn)
      → Step batch
          (record { conn = c; phase = writing })
          (record { conn = sent_on batch c; phase = idle })
  not_written :
      (c : Conn)
      → Step batch (record { conn = c; phase = writing }) (record { conn = c; phase = idle })
  answered :
      (c : Conn) (p : Phase)
      → Step batch
          (record { conn = c; phase = p })
          (record { conn = record c { recv_cnt = suc c.recv_cnt }; phase = p })

-- The states that a connection comes to from the start of the run.
pub data Reachable (batch : ℕ) : State → Type 0 where
  start : Reachable batch (record { conn = record { send_cnt = 0; recv_cnt = 0 }; phase = idle })
  step : {s t : State} → Reachable batch s → Step batch s t → Reachable batch t
