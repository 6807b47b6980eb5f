-- ===== src/BenchRate/Start.antt =====
-- benchcli-go/benchrate/benchrate.go: what `init` makes of the settings.
pub mod Ending
use go_http_benchmark.Prelude.{
  or_default, at_most, ℕ, zero, suc, ◌*◌, ◌^◌, Bool, true, false, not, ◌||◌, List, [], ◌∷◌, Option,
  none, some, Bytes, codes, length, ltb, if◌then◌else◌, ℤ, pos, negsuc,
}
use go_http_benchmark.Config.Ports.{url_host}
use go_http_benchmark.Protocol.Batch.{
  Batch, batch_buffers, pipeline_buffers, validate_pipeline, PipelineError,
}
use go_http_benchmark.Protocol.Encode.{encode_request}

-- The fields of BenchRate that `init` reads, and how many connections there are.
pub record Settings : Type 0 where
  pub ip : Bytes
  pub duration : ℤ
  pub concurrency : ℤ
  pub send_rate : ℤ
  pub batch_size : ℤ
  pub pipeline : ℤ
  pub payload : ℤ
  pub ps_interval : ℤ
  pub conns : ℕ

-- The fields as `init` leaves them; durations are in nanoseconds.
pub record Ready : Type 0 where
  pub duration : ℕ
  pub concurrency : ℕ
  pub send_rate : ℕ
  pub payload : ℕ
  pub ps_interval : ℕ
  pub wbuffer : Bytes
  pub batch : Batch

-- `logging.Fatalf` ends the process, and so does a panic.
pub data Started : Type 0 where
  no_connections : Started
  wrong_pipeline : PipelineError → Started
  wrong_tick_rate : Batch → Started
  panicked : Started
  ready : Ready → Started

abbrev pub second : ℕ
second = 10 ^ 9

-- `br.Pipeline > 0`
abbrev pub buffers_of : Bytes → ℕ → ℤ → ℤ → Option Batch
buffers_of request rate (pos (suc n)) batch_size = pipeline_buffers request (pos rate) (suc n)
buffers_of request rate (pos zero) batch_size = batch_buffers request (pos rate) batch_size
buffers_of request rate (negsuc n) batch_size = batch_buffers request (pos rate) batch_size

abbrev pub is_not_positive : ℤ → Bool
is_not_positive (pos (suc n)) = false
is_not_positive (pos zero) = true
is_not_positive (negsuc n) = true

abbrev pub is_empty : Bytes → Bool
is_empty [] = true
is_empty (c ∷ s) = false

-- `br.tickRate <= 0 || len(br.batchBuffer) == 0`
abbrev pub is_wrong : Batch → Bool
is_wrong b = is_not_positive b.tick_rate || is_empty b.buffer

abbrev pub checked : (Batch → Ready) → Option Batch → Started
checked f none = panicked
checked f (some b) = if is_wrong b then wrong_tick_rate b else ready (f b)

abbrev pub validated : Option PipelineError → Started → Started
validated none s = s
validated (some e) s = wrong_pipeline e

-- The request that is sent over and over: `EncodeRequest` of the bytes that `rand.Read` filled.
abbrev pub request_of : Bytes → Bytes → Bytes
request_of ip wbuffer = encode_request (codes "POST") (url_host ip) (codes "/echo") (some wbuffer)

abbrev pub ready_of : Settings → Bytes → ℕ → Batch → Ready
ready_of s wbuffer concurrency b = record {
  duration = or_default s.duration (10 * second);
  concurrency = concurrency;
  send_rate = or_default s.send_rate 1;
  payload = or_default s.payload 1024;
  ps_interval = or_default s.ps_interval second;
  wbuffer = wbuffer;
  batch = b;
}

abbrev pub settle : (ℕ → Bytes) → Settings → ℕ → Started
settle random s zero = no_connections
settle random s (suc c) =
    let rate = or_default s.send_rate 1 in
    let wbuffer = random (or_default s.payload 1024) in
    validated (validate_pipeline s.pipeline (pos rate)) (
      checked (ready_of s wbuffer (suc c))
        (buffers_of (request_of s.ip wbuffer) rate s.pipeline s.batch_size))

-- `init`; `random n` is what `rand.Read` fills `n` bytes with.
unfoldable pub init : (ℕ → Bytes) → Settings → Started
unfolding encode_request url_host validate_pipeline pipeline_buffers batch_buffers
init random s = settle random s (at_most (or_default s.concurrency 50000) s.conns)
