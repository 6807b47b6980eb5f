-- ===== src/Connections.antt =====
-- benchcli-go/connections/connection.go: the connections of a run, and how they are dialed.
pub mod Dial
pub mod Retries
use go_http_benchmark.Prelude.{
  or_default, at_most, ℕ, zero, suc, ◌+◌, ◌%◌, ◌^◌, ◌/◌, ◌*◌, Bool, true, false, List, [], ◌∷◌,
  ◌++◌, Option, none, some, Bytes, codes, ◌==◌, length, ltb, if◌then◌else◌, ℤ, pos, negsuc,
}
use go_http_benchmark.Config.Ports.{url_host}
use go_http_benchmark.Golib.Reader.{Reader, IoError}
use go_http_benchmark.Protocol.Encode.{encode_request}
use go_http_benchmark.Protocol.Errors.{Error}
use go_http_benchmark.Protocol.Framing.{Reply}
use go_http_benchmark.Protocol.Response.{discard_response}

-- `Conn`: its reader, with what its TCP connection has still to deliver.
pub record Conn : Type 0 where
  pub addr : Bytes
  pub reader : Reader
  pub broken : Bool

-- What comes of `net.DialTimeout` and of the write behind it: an error, or a connection with the
-- error of the write, the bytes that it delivers and how they end.
pub data Attempt : Type 0 where
  refused : Bytes → Attempt
  accepted : Option Bytes → Bytes → IoError → Attempt

pub data DialError : Type 0 where
  not_connected : Bytes → DialError
  not_written : Bytes → DialError
  no_response : Error → DialError
  wrong_status : ℕ → DialError

pub data Dialed : Type 0 where
  dialed : Reader → Dialed
  not_dialed : DialError → Dialed

abbrev answered : Reply → Option Error → Dialed
answered reply (some e) = not_dialed (no_response e)
answered reply none =
    if reply.status == 200 then dialed reply.reader else not_dialed (wrong_status reply.status)

-- `dial`, with a reader of `size` bytes, which is reset to the new connection.
unfoldable pub dial : ℕ → Attempt → Dialed
unfolding discard_response
dial size (refused e) = not_dialed (not_connected e)
dial size (accepted (some e) stream ending) = not_dialed (not_written e)
dial size (accepted none stream ending) =
    let reply = discard_response (record { size = size; unread = stream; ending = ending }) in
    answered reply reply.error

-- What a redial leaves: the connection and the error.
pub record Redialed : Type 0 where
  pub conn : Conn
  pub error : Option DialError

abbrev pub redialed : Conn → Dialed → Redialed
redialed c (not_dialed e) = record { conn = c; error = some e }
redialed c (dialed r) = record {
  conn = record { addr = c.addr; reader = r; broken = false };
  error = none;
}

-- `Redial`. A connection that stays broken is not read again before its next redial, which resets
-- its reader, so the reader is left as it is where the redial fails.
unfoldable pub redial : Conn → Attempt → Redialed
unfolding dial
redial c attempt = redialed c (dial c.reader.size attempt)

abbrev pub address : ℕ → List Bytes → Bytes
address i [] = []
address zero (a ∷ as') = a
address (suc i) (a ∷ as') = address i as'

-- `serverAddrs[idx%len(serverAddrs)]`, where there are addresses: without any the code divides by
-- zero, but `init` ends the process for a framework without ports.
abbrev pub server_addr : List Bytes → ℕ → Bytes
server_addr addrs idx = address (idx % length addrs) addrs

-- What `doOnce` leaves: the connections, the error, and how many dials it made.
pub record Done : Type 0 where
  pub conns : List Conn
  pub error : Option DialError
  pub made : ℕ

abbrev appended : List Conn → Bytes → Reader → ℕ → Done
appended conns addr r made = record {
  conns = conns ++ record { addr = addr; reader = r; broken = false } ∷ [];
  error = none;
  made = made;
}

module _ (size : ℕ) (addrs : List Bytes) (index : ℕ → ℕ) (network : ℕ → Bytes → Attempt) where
  -- The loop of `doOnce` from its `i`th round on. `index i` is the value of `serverIdx` that the
  -- round gets, to which other goroutines add as well, and `network` what comes of its dial.
  unfoldable pub dial_from : ℕ → ℕ → Option DialError → List Conn → Done
  unfolding dial
  dial_from zero i err conns = record { conns = conns; error = err; made = i }
  dial_from (suc left) i err conns =
      let addr = server_addr addrs (index i) in
      elim (dial size (network i addr)) [
        | dialed r ↦ appended conns addr r (suc i)
        | not_dialed e ↦ dial_from left (suc i) (some e) conns
      ]

  -- `doOnce`, with `RetryTimes`.
  unfoldable pub do_once : ℕ → List Conn → Done
  unfolding dial_from
  do_once retry_times conns = dial_from retry_times 0 none conns

-- The fields of Connections that `init` gives values; durations are in nanoseconds.
pub record Settings : Type 0 where
  pub num_connections : ℤ
  pub concurrency : ℤ
  pub dial_timeout : ℤ
  pub retry_interval : ℤ
  pub retry_times : ℤ
  pub read_buffer_size : ℤ

pub record Started : Type 0 where
  pub num_connections : ℕ
  pub concurrency : ℕ
  pub dial_timeout : ℕ
  pub retry_interval : ℕ
  pub retry_times : ℕ
  pub read_buffer_size : ℕ
  pub request : Bytes

-- `init`, on a machine with `cpus` processors; the addresses are those of the configuration.
unfoldable pub init : ℕ → Bytes → Settings → Started
unfolding encode_request url_host
init cpus ip s = record {
  num_connections = or_default s.num_connections 1000;
  concurrency =
      at_most (or_default s.concurrency (cpus * 1000)) (or_default s.num_connections 1000);
  dial_timeout = or_default s.dial_timeout (10 ^ 9);
  retry_interval = or_default s.retry_interval (10 ^ 8);
  retry_times = or_default s.retry_times 3;
  read_buffer_size = or_default s.read_buffer_size 4096;
  request = encode_request (codes "GET") (url_host ip) (codes "/echo") none;
}
