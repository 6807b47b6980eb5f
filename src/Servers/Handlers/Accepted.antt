-- ===== src/Servers/Handlers/Accepted.antt =====
-- A payload on its way through a server and back to the client that sent it.
use go_http_benchmark.Prelude.{
  ℕ, ◌≤◌, ◌<◌, ◌≡◌, refl, sym, ap, ◌∙◌, subst, Bool, true, false, List, [], ◌∷◌, ◌++◌, append-nil,
  none, Bytes, length, take_all, arith, pos, All, le→leb,
}
use go_http_benchmark.BenchEcho.{Outcomes, do_once}
use go_http_benchmark.BenchEcho.Synced.{do_once-answer_text, standing, SameBody}
use go_http_benchmark.Connections.{Conn}
use go_http_benchmark.Golib.Body.{Stream, content, read_full_error}
use go_http_benchmark.Golib.Reader.{Reader}
use go_http_benchmark.Golib.Slice.{Slice, IsSlice}
use go_http_benchmark.Protocol.Framing.{max_body_size}
use go_http_benchmark.Protocol.Response.Answer.{Answer, IsAnswer, answer_text}
use go_http_benchmark.Servers.Echo.{Served, echoed, headers_for, echo, echo_all}
use go_http_benchmark.Servers.Echo.Refine.{echo_all_refines, respond}
use go_http_benchmark.Prelude.{Option, some}
use go_http_benchmark.Golib.Strconv.{itoa}
use go_http_benchmark.Golib.Slice.{view}
use go_http_benchmark.Servers.Echo.{read_body, pool_get}
use go_http_benchmark.Servers.Echo.Body.{view-read_body_known}
use go_http_benchmark.Servers.Handlers.{
  Server, standard, gin, echo_server, beego, fib, fasthttp, fiber, hertz, Reply, sent, octets,
  handle, found, gin_on_echo, echo_on_echo, beego_on_echo, fib_on_request, fasthttp_on_request,
  fiber_on_echo, hertz_on_echo,
}

-- The Content-Length that a handler sets itself.
abbrev pub length_of : Server → Bytes → Option Bytes
length_of standard body = some (itoa (length body))
length_of gin body = some (itoa (length body))
length_of echo_server body = some (itoa (length body))
length_of beego body = none
length_of fib body = none
length_of fasthttp body = none
length_of fiber body = none
length_of hertz body = none

-- What a framework does with a handler's answer of status 200: it writes a response with that status, that
-- the client's reader can take, and with the length of the body among fields that say nothing else of it.
pub record IsWriter (size : ℕ) (server : Server) (writes : Reply → Bytes) : Type 0 where
  pub answer_of : Bytes → Answer
  pub is_answer : (body : Bytes) → length body ≤ max_body_size → IsAnswer size 200 (answer_of body)
  pub same_body : (body : Bytes) → (answer_of body).body ≡ body
  pub written :
      (body : Bytes)
      → writes (sent octets (length_of server body) body) ≡ answer_text (answer_of body)

-- A body that comes whole, in whatever reads, is answered with its bytes.
respond_whole :
    (s : Stream)
    → respond (s, pos (length (content s))) ≡ echoed (headers_for (content s)) (content s)
unfolding read_full_error
respond_whole s =
    rw
      (
        le→leb (length (content s)) (length (content s)) (omega arith),
        take_all (length (content s)) (content s) (omega arith),
      )
      refl

abbrev first_of : Served → List Served → Served
first_of s [] = s
first_of s (t ∷ ts) = t

SameBody-refl : (check_valid : Bool) (body : Bytes) → SameBody check_valid body body
SameBody-refl true body = refl
SameBody-refl false body = refl

module _ (next_cap : ℕ → ℕ) (grows : (n : ℕ) → n < next_cap n) (payload : ℕ) where
  echo_whole :
      (pool : List Slice) (s : Stream)
      → All IsSlice pool
      → (echo next_cap payload pool s (pos (length (content s)))).0
        ≡ echoed (headers_for (content s)) (content s)
  unfolding echo_all
  echo_whole pool s h =
      ap (first_of (echoed [] []))
        (echo_all_refines next_cap grows payload pool ((s, pos (length (content s))) ∷ []) h)
      ∙ respond_whole s

  read_whole :
      (pool : List Slice) (s : Stream)
      → let r = read_body next_cap (pool_get payload pool) s (pos (length (content s))) in
        (r.error ≡ none) × (view r.body ≡ content s)
  unfolding read_body read_full_error
  read_whole pool s =
      let n = length (content s) in
      (
        rw (le→leb n n (omega arith)) refl,
        view-read_body_known next_cap grows (pool_get payload pool) s n (omega arith)
            ∙ take_all n (content s) (omega arith),
      )

  handle_whole :
      (server : Server) (pool : List Slice) (s : Stream)
      → All IsSlice pool
      → handle next_cap payload pool server s (pos (length (content s)))
        ≡ sent octets (length_of server (content s)) (content s)
  unfolding handle gin_on_echo echo_on_echo beego_on_echo fib_on_request fasthttp_on_request
      fiber_on_echo hertz_on_echo
  handle_whole standard pool s h = ap found (echo_whole pool s h)
  handle_whole gin pool s h = let (e, v) = read_whole pool s in rw (e, v) refl
  handle_whole echo_server pool s h = let (e, v) = read_whole pool s in rw (e, v) refl
  handle_whole beego pool s h = let (e, v) = read_whole pool s in rw (e, v) refl
  handle_whole fib pool s h = let (e, v) = read_whole pool s in rw (e, v) refl
  handle_whole fasthttp pool s h = refl
  handle_whole fiber pool s h = refl
  handle_whole hertz pool s h = refl

  -- A payload that BenchEcho sends, and that reaches a server whole with its length, in whatever reads,
  -- is one that BenchEcho gets back: whichever handler the server has, whatever the pooled buffers of
  -- the server and of the client held, with a framework that writes the handler's answer as one response,
  -- doOnce has no error, and puts the connection back, behind the others, not broken and with nothing
  -- unread.
  pub do_once-handle :
      (server : Server) (writes : Reply → Bytes) (pool : List Slice) (s : Stream)
      (check_valid : Bool) (out : Outcomes) (b : Slice) (addr : Bytes) (r : Reader)
      (conns : List Conn)
      → IsWriter r.size server writes
      → All IsSlice pool
      → length (content s) ≤ max_body_size
      → out.write_error ≡ none
      → out.arrives ≡ writes (handle next_cap payload pool server s (pos (length (content s))))
      → let d = do_once check_valid (content s) out b (standing addr r [] ∷ conns) in
        (d.error ≡ none) × (d.conns ≡ conns ++ standing addr r [] ∷ [])
  do_once-handle server writes pool s check_valid out b addr r conns w h small write arrives =
      let a = w.answer_of (content s) in
      let text : out.arrives ≡ answer_text a ++ [] =
        arrives
        ∙ (ap writes (handle_whole server pool s h)
            ∙ (w.written (content s) ∙ sym (append-nil (answer_text a)))) in
      let (back, accepts) =
        do_once-answer_text check_valid (content s) out b addr r conns 200 a [] write text
          (w.is_answer (content s) small) in
      (
        accepts.1 (
          refl,
          subst (λ (body : Bytes). SameBody check_valid (content s) body)
              (sym (w.same_body (content s))) (SameBody-refl check_valid (content s)),
        ),
        back,
      )
