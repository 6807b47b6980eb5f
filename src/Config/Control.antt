-- ===== src/Config/Control.antt =====
-- config/config.go: requests to the control routes, and how they are retried.
pub mod Retries
use go_http_benchmark.Prelude.{
  ℕ, zero, suc, ◌+◌, ◌-◌, ◌*◌, Bool, true, false, List, [], ◌∷◌, ◌++◌, Option, none, some, Bytes,
  codes, ltb, leb, ◌==◌, if◌then◌else◌,
}
use go_http_benchmark.Golib.Text.{trim_space}

-- What `net/http` answers a request with: an error of the request or of reading the body, or a
-- response with its status code, its status line and its body.
pub data Exchange : Type 0 where
  not_sent : Bytes → Exchange
  not_read : Bytes → Exchange
  response : ℕ → Bytes → Bytes → Exchange

-- The results of `controlOnce`: the data, or whether the server answered and the error.
pub data Once : Type 0 where
  data_of : Bytes → Once
  failed : Bool → Bytes → Once

-- `controlOnce`.
unfoldable pub control_once : Exchange → Once
control_once (not_sent e) = failed false e
control_once (not_read e) = failed false e
control_once (response code status body) =
    if code == 200 then data_of body else failed true (status ++ (codes ": " ++ trim_space body))

-- The results of `controlRequest`, the attempts that it made and the seconds that it slept.
pub record Requested : Type 0 where
  pub reply : Option Bytes
  pub error : Option Bytes
  pub made : ℕ
  pub slept : ℕ

abbrev pub with_url : Bytes → Bytes → Bytes
with_url url e = url ++ (codes ": " ++ e)

-- `controlBackoff`, in seconds.
abbrev control_backoff : ℕ
control_backoff = 2

-- The loop from the attempt `attempt` on, with `left` attempts to go.
unfoldable pub request_from : Bytes → (ℕ → Exchange) → ℕ → ℕ → Option Bytes → ℕ → Requested
unfolding control_once
request_from url server zero attempt last_err slept = record {
  reply = none;
  error = last_err;
  made = attempt - 1;
  slept = slept;
}
request_from url server (suc left) attempt last_err slept =
    let slept' = slept + (attempt - 1) * control_backoff in
    elim (control_once (server attempt)) [
      | data_of body ↦ record { reply = some body; error = none; made = attempt; slept = slept' }
      | failed true e ↦ record {
        reply = none;
        error = some (with_url url e);
        made = attempt;
        slept = slept';
      }
      | failed false e ↦ request_from url server left (suc attempt) (some (with_url url e)) slept'
    ]

-- `controlRequest`: `server` says how the exchange of each attempt ends.
unfoldable pub control_request : Bytes → (ℕ → Exchange) → ℕ → Requested
unfolding request_from
control_request url server attempts = request_from url server attempts 1 none 0
