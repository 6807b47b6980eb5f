-- ===== src/BenchEcho/Workers/Back.antt =====
-- What `doOnce` puts back.
use go_http_benchmark.Prelude.{
  ◌≡◌, refl, ◌∙◌, Bool, true, false, [], ◌∷◌, Option, none, some, Bytes, if◌then◌else◌,
}
use go_http_benchmark.BenchEcho.{do_once, Outcomes, Done, after_reply, exchange, after_redial}
use go_http_benchmark.Connections.{
  Conn, redial, Attempt, DialError, Dialed, dialed, not_dialed, dial, redialed,
}
use go_http_benchmark.Golib.Slice.{Slice}
use go_http_benchmark.BenchEcho.{arrived}
use go_http_benchmark.Protocol.Errors.{Error}
use go_http_benchmark.Protocol.Framing.{Reply}
use go_http_benchmark.Protocol.Response.{read_response}

-- One connection is put back, to the same address.
abbrev pub PutsBack : Conn → Done → Type 0
PutsBack c d = (x : Conn) × (d.conns ≡ x ∷ []) × (x.addr ≡ c.addr)

after_reply-PutsBack :
    (check_valid : Bool) (pbuffer : Bytes) (c : Conn) (reply : Reply) (e : Option Error)
    → PutsBack c (after_reply check_valid pbuffer [] c reply e)
after_reply-PutsBack check_valid pbuffer c reply none = (_, refl, refl)
after_reply-PutsBack check_valid pbuffer c reply (some e) = (_, refl, refl)

exchange-PutsBack :
    (check_valid : Bool) (pbuffer : Bytes) (b : Slice) (c : Conn) (redials : Attempt)
    (e : Option Bytes) (arrives : Bytes)
    → PutsBack c (
        exchange check_valid pbuffer [] b
          (record { redials = redials; write_error = e; arrives = arrives })
          c)
exchange-PutsBack check_valid pbuffer b c redials none arrives =
    let reply = read_response (arrived c.reader arrives) b in
    after_reply-PutsBack check_valid pbuffer c reply reply.error
exchange-PutsBack check_valid pbuffer b c redials (some e) arrives = (_, refl, refl)

redial-addr : (c : Conn) (attempt : Attempt) → (redial c attempt).conn.addr ≡ c.addr
unfolding redial
redial-addr c attempt = go (dial c.reader.size attempt)
  where
    go : (d : Dialed) → (redialed c d).conn.addr ≡ c.addr
    go (dialed r) = refl
    go (not_dialed e) = refl

after_redial-PutsBack :
    (check_valid : Bool) (pbuffer : Bytes) (b : Slice) (out : Outcomes) (c : Conn)
    (e : Option DialError)
    → PutsBack c (after_redial check_valid pbuffer [] b out c e)
after_redial-PutsBack check_valid pbuffer b out c none =
    exchange-PutsBack check_valid pbuffer b c out.redials out.write_error out.arrives
after_redial-PutsBack check_valid pbuffer b out c (some e) = (_, refl, refl)

if-PutsBack :
    (c : Conn) (t : Bool) (x y : Done)
    → PutsBack c x
    → PutsBack c y
    → PutsBack c (if t then x else y)
if-PutsBack c true x y h k = h
if-PutsBack c false x y h k = k

redialed-PutsBack : (c d : Conn) (x : Done) → PutsBack d x → d.addr ≡ c.addr → PutsBack c x
redialed-PutsBack c d x (q, same, addr) e = (q, same, addr ∙ e)

-- What doOnce puts back is one connection, to the same address.
pub do_once-PutsBack :
    (check_valid : Bool) (pbuffer : Bytes) (out : Outcomes) (b : Slice) (c : Conn)
    → PutsBack c (do_once check_valid pbuffer out b (c ∷ []))
unfolding do_once
do_once-PutsBack check_valid pbuffer out b c =
    let q = redial c out.redials in
    if-PutsBack c c.broken (after_redial check_valid pbuffer [] b out q.conn q.error)
      (exchange check_valid pbuffer [] b out c)
      (redialed-PutsBack c q.conn (after_redial check_valid pbuffer [] b out q.conn q.error)
        (after_redial-PutsBack check_valid pbuffer b out q.conn q.error)
        (redial-addr c out.redials))
      (exchange-PutsBack check_valid pbuffer b c out.redials out.write_error out.arrives)
