-- ===== src/BenchEcho/Synced.antt =====
-- A connection and its responses stay in step.
use go_http_benchmark.Prelude.{
  ◌↔◌, length, ap, arith, equal_iff, Bool, true, false, ℕ, ◌≡◌, refl, List, [], ◌∷◌, ◌++◌, none,
  Bytes,
}
use go_http_benchmark.Connections.{Conn}
use go_http_benchmark.Golib.Reader.{Reader, holding}
use go_http_benchmark.Golib.Slice.{Slice}
use go_http_benchmark.Protocol.Response.Answer.{
  Answer, IsAnswer, answer_text, read_response-answer_text,
}
use go_http_benchmark.BenchEcho.{Outcomes, judge, do_once}

-- A connection at the end of a response, with `rest` behind it.
abbrev pub standing : Bytes → Reader → Bytes → Conn
standing addr r rest = record { addr = addr; reader = holding r rest; broken = false }

-- The body is the one that was sent, or is only as long where bodies are not compared.
abbrev pub SameBody : Bool → Bytes → Bytes → Type 0
SameBody true pbuffer body = body ≡ pbuffer
SameBody false pbuffer body = length body ≡ length pbuffer

same_length : (a b : Bytes) → a ≡ b → length a ≡ length b
same_length a b e = ap length e

judge_iff :
    (check_valid : Bool) (pbuffer : Bytes) (status : ℕ) (body : Bytes)
    → (judge check_valid pbuffer status body ≡ none)
      ↔ ((status ≡ 200) × SameBody check_valid pbuffer body)
unfolding judge
judge_iff true pbuffer status body = grind (arith, equal_iff pbuffer body, same_length pbuffer body)
judge_iff false pbuffer status body = grind (arith)

-- On a connection that is not broken and has nothing unread, the write goes well, and behind it arrives
-- a response with a Content-Length of at most MaxBodySize among well-formed header lines that fit the
-- reader's buffer, and with a status that has a body: not 1xx, 204 or 304. Whatever else its status
-- and its body are, and whatever the pooled buffer held, the connection goes back into the channel,
-- behind the others, not broken and standing at what follows the response. There is no error exactly
-- where the status is 200 and the body is the one that was sent, or only as long where bodies are not
-- compared.
pub do_once-answer_text :
    (check_valid : Bool) (pbuffer : Bytes) (out : Outcomes) (b : Slice) (addr : Bytes) (r : Reader)
    (conns : List Conn) (status : ℕ) (a : Answer) (rest : Bytes)
    → out.write_error ≡ none
    → out.arrives ≡ answer_text a ++ rest
    → IsAnswer r.size status a
    → let d = do_once check_valid pbuffer out b (standing addr r [] ∷ conns) in
      (d.conns ≡ conns ++ standing addr r rest ∷ [])
      × ((d.error ≡ none) ↔ ((status ≡ 200) × SameBody check_valid pbuffer a.body))
unfolding do_once
do_once-answer_text check_valid pbuffer out b addr r conns status a rest write arrives w =
    let (no_error, status_is, shows, reader_is) = read_response-answer_text r status a rest w b in
    rw (write, arrives, no_error)
      (rw (status_is, shows, reader_is) (refl, judge_iff check_valid pbuffer status a.body))
