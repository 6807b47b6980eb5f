-- ===== src/BenchEcho/Workers.antt =====
-- The workers of a run of BenchEcho, which take connections out of the channel and put them back.
pub mod Back
pub mod Whole
use go_http_benchmark.Prelude.{
  ℕ, zero, suc, ◌+◌, ◌≤◌, ◌<◌, ◌≡◌, ◌≢◌, refl, sym, ap, ◌∙◌, subst, Bool, true, false, List, [],
  ◌∷◌, ◌++◌, Option, none, some, Bytes, length, length-append, append_assoc, replicate,
  length-replicate, arith, map, perm_front, perm_keep, if◌then◌else◌, append-nil,
}
use mathlib.Core.List.{Perm}
use mathlib.Core.List.Perm
use go_http_benchmark.BenchEcho.{do_once, Outcomes, Done, after_reply, exchange, after_redial}
use go_http_benchmark.Connections.{
  Conn, redial, Redialed, Attempt, DialError, Dialed, dialed, not_dialed, dial, redialed,
}
use go_http_benchmark.Golib.Slice.{Slice}
use go_http_benchmark.BenchEcho.{arrived}
use go_http_benchmark.Protocol.Errors.{Error}
use go_http_benchmark.Protocol.Framing.{Reply}
use go_http_benchmark.Protocol.Response.{read_response}

-- A connection with its place in `Conns`, which tells it from the others: in the code it is a pointer,
-- and what `doOnce` puts back is the pointer that it took.
abbrev pub Placed : Type 0
Placed = ℕ × Conn

-- The connections in their places, from `i` on.
abbrev pub placed : ℕ → List Conn → List Placed
placed i [] = []
placed i (c ∷ cs) = (i, c) ∷ placed (suc i) cs

abbrev pub in_place : ℕ → List Conn → List Placed
in_place i [] = []
in_place i (c ∷ cs) = (i, c) ∷ in_place i cs

-- The channel `chConns`, and of each worker the connection that it holds.
pub record State : Type 0 where
  pub channel : List Placed
  pub workers : List (Option Placed)

-- The connections that are put back by a `doOnce` that took `c`.
abbrev pub put_back : Bool → Bytes → Outcomes → Slice → Conn → List Conn
put_back check_valid pbuffer out b c = (do_once check_valid pbuffer out b (c ∷ [])).conns

-- One worker starts a `doOnce`, or ends it.
pub data Step (check_valid : Bool) : State → State → Type 0 where
  takes :
      (c : Placed) (channel : List Placed) (before behind : List (Option Placed))
      → Step check_valid
          (record { channel = c ∷ channel; workers = before ++ none ∷ behind })
          (record { channel = channel; workers = before ++ some c ∷ behind })
  gives :
      (c : Placed) (channel : List Placed) (before behind : List (Option Placed)) (pbuffer : Bytes)
      (out : Outcomes) (b : Slice)
      → Step check_valid
          (record { channel = channel; workers = before ++ some c ∷ behind })
          (record {
            channel = channel ++ in_place c.0 (put_back check_valid pbuffer out b c.1);
            workers = before ++ none ∷ behind;
          })

-- The states of a run of `n` workers, over `conns`.
pub data Reachable (check_valid : Bool) (n : ℕ) (conns : List Conn) : State → Type 0 where
  start :
      Reachable check_valid n conns
        (record { channel = placed 0 conns; workers = replicate n none })
  step :
      {s t : State}
      → Reachable check_valid n conns s
      → Step check_valid s t
      → Reachable check_valid n conns t

abbrev held_one : Option Placed → List Placed → List Placed
held_one none cs = cs
held_one (some c) cs = c ∷ cs

abbrev pub held : List (Option Placed) → List Placed
held [] = []
held (w ∷ ws) = held_one w (held ws)

-- The places of the connections, each with its address.
abbrev pub places : List Placed → List (ℕ × Bytes)
places [] = []
places (c ∷ cs) = (c.0, c.1.addr) ∷ places cs
