-- ===== src/BenchEcho.antt =====
-- benchcli-go/benchecho/benchecho.go: one request at a time on each connection.
pub mod Synced
pub mod Workers
pub mod Prepared
use go_http_benchmark.Prelude.{
  ℕ, zero, suc, ◌*◌, ◌^◌, Bool, true, false, not, ◌&&◌, List, [], ◌∷◌, ◌++◌, Option, none, some,
  Bytes, codes, ◌==◌, length, ltb, equal, if◌then◌else◌, ℤ, pos, negsuc, or_default, at_most,
}
use go_http_benchmark.Connections.{Conn, Attempt, redial, DialError}
use go_http_benchmark.Golib.Reader.{Reader}
use go_http_benchmark.Golib.Slice.{Slice, view, reset}
use go_http_benchmark.Protocol.Errors.{Error}
use go_http_benchmark.Protocol.Framing.{Reply}
use go_http_benchmark.Protocol.Response.{read_response}

-- The errors of `doOnce`.
pub data EchoError : Type 0 where
  not_redialed : DialError → EchoError
  not_written : Bytes → EchoError
  no_response : Error → EchoError
  wrong_status : ℕ → EchoError
  wrong_body : EchoError
  wrong_length : ℕ → ℕ → EchoError

-- What `doOnce` leaves: the connections in the channel, the pooled buffer and the error.
pub record Done : Type 0 where
  pub conns : List Conn
  pub rbuffer : Slice
  pub error : Option EchoError

-- What happens outside while `doOnce` runs: what comes of a redial, the error of the write, and
-- the bytes that arrive on the connection behind the write.
pub record Outcomes : Type 0 where
  pub redials : Attempt
  pub write_error : Option Bytes
  pub arrives : Bytes

abbrev break : Conn → Conn
break c = record c { broken = true }

abbrev pub arrived : Reader → Bytes → Reader
arrived r s = record r { unread = r.unread ++ s }

-- The deferred `be.chConns <- conn`.
abbrev back : List Conn → Conn → Slice → Option EchoError → Done
back conns c b e = record { conns = conns ++ c ∷ []; rbuffer = b; error = e }

-- The tests of a response that was read.
unfoldable pub judge : Bool → Bytes → ℕ → Bytes → Option EchoError
judge check_valid pbuffer status body =
    if not (status == 200)
    then some (wrong_status status)
    else if check_valid && not (equal pbuffer body)
    then some wrong_body
    else if not (length body == length pbuffer)
    then some (wrong_length (length body) (length pbuffer))
    else none

-- A panic of `ReadResponse` ends the process behind the deferred put-back; it is the error
-- `no_response panic` here.
abbrev after_reply : Bool → Bytes → List Conn → Conn → Reply → Option Error → Done
after_reply check_valid pbuffer conns c reply (some e) =
    back conns (break (record c { reader = reply.reader })) (reset reply.body)
      (some (no_response e))
after_reply check_valid pbuffer conns c reply none =
    back conns (record c { reader = reply.reader }) (reset reply.body)
      (judge check_valid pbuffer reply.status (view reply.body))

-- From the write on.
abbrev exchange : Bool → Bytes → List Conn → Slice → Outcomes → Conn → Done
exchange check_valid pbuffer conns b out c = written out.write_error
  where
    written : Option Bytes → Done
    written (some e) = back conns (break c) b (some (not_written e))
    written none =
        let reply = read_response (arrived c.reader out.arrives) b in
        after_reply check_valid pbuffer conns c reply reply.error

abbrev after_redial : Bool → Bytes → List Conn → Slice → Outcomes → Conn → Option DialError → Done
after_redial check_valid pbuffer conns b out c (some e) = back conns c b (some (not_redialed e))
after_redial check_valid pbuffer conns b out c none = exchange check_valid pbuffer conns b out c

-- `doOnce`, with the connections of the channel `chConns`, whose first it takes, and a buffer of
-- the pool. Where there is no connection in the channel the code waits for one, and the model does
-- nothing.
unfoldable pub do_once : Bool → Bytes → Outcomes → Slice → List Conn → Done
unfolding redial read_response judge
do_once check_valid pbuffer out b [] = record { conns = []; rbuffer = b; error = none }
do_once check_valid pbuffer out b (c ∷ conns) =
    if c.broken
    then (let q = redial c out.redials in
        after_redial check_valid pbuffer conns b out q.conn q.error)
    else exchange check_valid pbuffer conns b out c

-- The fields of BenchEcho that `init` gives values; durations are in nanoseconds.
pub record Settings : Type 0 where
  pub warmup_times : ℤ
  pub concurrency : ℤ
  pub payload : ℤ
  pub ps_interval : ℤ
  pub conns : ℕ

pub record Ready : Type 0 where
  pub warmup_times : ℕ
  pub concurrency : ℕ
  pub payload : ℕ
  pub ps_interval : ℕ

abbrev ready_with : Settings → ℕ → Option Ready
ready_with s zero = none
ready_with s (suc c) = some (record {
  warmup_times = warmup s.warmup_times;
  concurrency = suc c;
  payload = or_default s.payload 1024;
  ps_interval = or_default s.ps_interval (10 ^ 9);
})
  where
    warmup : ℤ → ℕ
    warmup (pos (suc n)) = suc n
    warmup (pos zero) = at_most (s.conns * 5) 2000000
    warmup (negsuc n) = at_most (s.conns * 5) 2000000

-- The settings of `init`, on a machine with `cpus` processors; `none` is its Fatalf.
unfoldable pub init : ℕ → Settings → Option Ready
init cpus s = ready_with s (at_most (or_default s.concurrency (cpus * 1000)) s.conns)
