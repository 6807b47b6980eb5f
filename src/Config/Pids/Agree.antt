-- ===== src/Config/Pids/Agree.antt =====
-- Both sides of /init.
use go_http_benchmark.Prelude.{
  ℕ, ◌≤◌, ◌<◌, ◌≡◌, refl, false, some, Bytes, codes, ◌++◌, [], ◌∷◌, All, inl, inr, arith, pos,
}
use go_http_benchmark.Config.Control.{Exchange, response, control_request, Requested}
use go_http_benchmark.Config.Control.Retries.{Unanswered, Settles, control_request_settled}
use go_http_benchmark.Config.Pids.{init_and_get_framework_pid, control_attempts}
use go_http_benchmark.Config.Ports.{framework_control_addr}
use go_http_benchmark.Golib.Strconv.{itoa, int_limit}
use go_http_benchmark.Golib.Strconv.Printed.{atoi-itoa, itoa-IsPlain, IsPlain}
use go_http_benchmark.Golib.Text.{trim_space, is_space}
use go_http_benchmark.Golib.Text.Trim.{trim_keep}
use go_http_benchmark.Servers.Control.{Answer, State, bad_request, pid_text, init}

-- The response that an answer of the handler is sent as.
abbrev pub sent : Answer → Exchange
sent bad_request = response 400 (codes "400 Bad Request") []
sent (pid_text body) = response 200 (codes "200 OK") body

IsPlain-is_space : (c : ℕ) → IsPlain c → is_space c ≡ false
IsPlain-is_space c h = ground arith

IsPlain-All : (s : Bytes) → All IsPlain s → All (λ c. is_space c ≡ false) s
IsPlain-All [] h = tt
IsPlain-All (c ∷ s) (h, hs) = (IsPlain-is_space c h, IsPlain-All s hs)

trim-itoa : (n : ℕ) → trim_space (itoa n) ≡ itoa n
unfolding trim_space
trim-itoa n = trim_keep is_space (itoa n) (IsPlain-All (itoa n) (itoa-IsPlain n))

settled-reply :
    (url status body : Bytes) (q : Requested) → Settles url 200 status body q → q.reply ≡ some body
settled-reply url status body q (inl (e, reply, none_wrong)) = reply
settled-reply url status body q (inr (ne, reply, error)) = absurd (ne refl)

-- The pid that a client takes of a server of a known framework, over /init, is the server's own,
-- also where up to three attempts before are lost, and where the server had answered some of
-- them: the handler answers every request whose body it could read with its pid.
pub init_and_get_framework_pid_lem :
    (framework ip addr body : Bytes) (interval : Bytes → ℕ) (pid k : ℕ) (s : State)
    (server : ℕ → Exchange)
    → framework_control_addr framework ip ≡ some addr
    → pid < int_limit
    → 1 ≤ k
    → k ≤ control_attempts
    → ((j : ℕ) → 1 ≤ j → j < k → Unanswered server j)
    → server k ≡ sent (init interval pid (some body) s).0
    → init_and_get_framework_pid framework ip server
      ≡ some (record { pid = pos pid; pprof_addr = addr })
unfolding init_and_get_framework_pid init
init_and_get_framework_pid_lem framework ip addr body interval pid k s server known small one few
      lost last =
    let url = addr ++ codes "/init" in
    let (q, made) =
      control_request_settled url server control_attempts k 200 (codes "200 OK") (itoa pid) one few
        lost last in
    let reply : (control_request url server control_attempts).reply ≡ some (itoa pid) =
      settled-reply url (codes "200 OK") (itoa pid) (control_request url server control_attempts)
        q in
    rw (known, reply, trim-itoa pid, atoi-itoa pid small) refl
