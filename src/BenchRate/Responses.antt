-- ===== src/BenchRate/Responses.antt =====
-- benchcli-go/benchrate/benchrate.go: the reader of a connection's responses.
pub mod Counted
pub mod Ends
use go_http_benchmark.Prelude.{
  ℕ, zero, suc, ◌+◌, Bool, true, false, not, Option, none, some, Bytes, equal, ◌==◌, length,
  if◌then◌else◌,
}
use go_http_benchmark.Golib.Reader.{Reader}
use go_http_benchmark.Golib.Slice.{Slice, view, nil}
use go_http_benchmark.Protocol.Errors.{is_panic}
use go_http_benchmark.Protocol.Framing.{Reply}
use go_http_benchmark.Protocol.Response.{read_response, discard_response}

-- The connection's count of responses, and those of BenchRate that the reader adds to.
pub record Counts : Type 0 where
  pub recv_cnt : ℕ
  pub answered : ℕ
  pub recv_times : ℕ
  pub recv_bytes : ℕ

-- How the reader leaves: `broken` is the connection's flag, `panicked` says that ReadResponse
-- panicked, which ends the process, and `in_time` that the fuel was enough.
pub record Ended : Type 0 where
  pub counts : Counts
  pub broken : Bool
  pub panicked : Bool
  pub reader : Reader
  pub in_time : Bool

abbrev pub read_one : Bool → Reader → Slice → Reply
read_one check_valid r body = if check_valid then read_response r body else discard_response r

-- The status that is counted, and the bytes.
abbrev pub valid_status : Bool → Bytes → Reply → ℕ
valid_status check_valid wbuffer reply =
    if check_valid
    then (if equal (view reply.body) wbuffer then reply.status else 0)
    else reply.status

abbrev pub counted_bytes : Bool → Reply → ℕ
counted_bytes check_valid reply = if check_valid then reply.body.len else reply.n

abbrev pub count_response : ℕ → ℕ → Counts → Counts
count_response status n k =
    if status == 200
    then record {
      recv_cnt = suc k.recv_cnt;
      answered = suc k.answered;
      recv_times = suc k.recv_times;
      recv_bytes = k.recv_bytes + n;
    }
    else record {
      recv_cnt = suc k.recv_cnt;
      answered = suc k.answered;
      recv_times = k.recv_times;
      recv_bytes = k.recv_bytes;
    }

abbrev pub next_body : Bool → Slice → Reply → Slice
next_body check_valid body reply = if check_valid then reply.body else body

module _ (check_valid : Bool) (wbuffer : Bytes) where
  abbrev pub after_reply : Slice → Counts → Reply → Counts
  after_reply body k reply =
      count_response (valid_status check_valid wbuffer reply) (counted_bytes check_valid reply) k

  -- The loop of `readResponses`.
  unfoldable pub responses_from : ℕ → Reader → Slice → Counts → Ended
  unfolding read_response discard_response
  responses_from zero r body k = record {
    counts = k;
    broken = false;
    panicked = false;
    reader = r;
    in_time = false;
  }
  responses_from (suc fuel) r body k =
      let reply = read_one check_valid r body in
      elim reply.error [
        | some e ↦ record {
          counts = k;
          broken = not (is_panic e);
          panicked = is_panic e;
          reader = reply.reader;
          in_time = true;
        }
        | none ↦
            responses_from fuel reply.reader (next_body check_valid body reply)
              (after_reply body k reply)
      ]

  -- `readResponses`. A response has a byte at least, so the bytes to come bound the rounds.
  unfoldable pub read_responses : Reader → Counts → Ended
  unfolding responses_from
  read_responses r k = responses_from (suc (length r.unread)) r nil k
