-- ===== src/Servers/Handlers.antt =====
-- The handlers of the echo route: of frameworks/handlers.go and of the servers in frameworks.
pub mod Accepted
use go_http_benchmark.Prelude.{
  ℕ, Bool, true, false, List, [], ◌∷◌, Option, none, some, Bytes, codes, length, ℤ, equal,
  if◌then◌else◌,
}
use go_http_benchmark.Golib.Body.{Stream, ReadError, content}
use go_http_benchmark.Golib.Slice.{Slice, view}
use go_http_benchmark.Golib.Strconv.{itoa}
use go_http_benchmark.Servers.Echo.{
  BodyRead, Served, bad_request, echoed, echo, read_body, pool_get,
}

-- The servers by their handlers: `standard` is Echo, which nethttp, nbio, chi, gorillamux, goji and
-- httprouter register.
pub data Server : Type 0 where
  standard gin echo_server beego fib fasthttp fiber hertz : Server

-- What a handler answers: a status of 404, one of 400 with an error, or one of 200 with the type
-- of the body, the Content-Length where the handler sets it, and the body.
pub data Reply : Type 0 where
  not_found : Reply
  refused : ReadError → Reply
  sent : Bytes → Option Bytes → Bytes → Reply

abbrev pub octets : Bytes
octets = codes "application/octet-stream"

abbrev pub echo_path : Bytes
echo_path = codes "/echo"

abbrev found : Served → Reply
found (bad_request e) = refused e
found (echoed [] body) = sent [] none body
found (echoed ((k, type) ∷ []) body) = sent type none body
found (echoed ((k, type) ∷ (l, size) ∷ hs) body) = sent type (some size) body

-- The handlers that read the body by ReadBody: `onEcho` of gin and of echo, which set the
-- Content-Length, `onEcho` of beego, and `onRequest` of fib, which tests the path.
abbrev with_length : Option ReadError → Bytes → Reply
with_length (some e) body = refused e
with_length none body = sent octets (some (itoa (length body))) body

abbrev without_length : Option ReadError → Bytes → Reply
without_length (some e) body = refused e
without_length none body = sent octets none body

unfoldable pub gin_on_echo : BodyRead → Reply
unfolding itoa
gin_on_echo r = with_length r.error (view r.body)

unfoldable pub echo_on_echo : BodyRead → Reply
unfolding itoa
echo_on_echo r = with_length r.error (view r.body)

unfoldable pub beego_on_echo : BodyRead → Reply
beego_on_echo r = without_length r.error (view r.body)

unfoldable pub fib_on_request : Bytes → BodyRead → Reply
fib_on_request path r =
    if equal path echo_path then without_length r.error (view r.body) else not_found

-- The handlers to which their framework hands the body that it has read: `onRequest` of fasthttp, which
-- tests the path, and `onEcho` of fiber and of hertz.
unfoldable pub fasthttp_on_request : Bytes → Bytes → Reply
fasthttp_on_request path body = if equal path echo_path then sent octets none body else not_found

unfoldable pub fiber_on_echo : Bytes → Reply
fiber_on_echo body = sent octets none body

unfoldable pub hertz_on_echo : Bytes → Reply
hertz_on_echo body = sent octets none body

-- The answer of a server to a request for the echo route, with the body that `s` delivers.
module _ (next_cap : ℕ → ℕ) (payload : ℕ) (pool : List Slice) where
  abbrev read_pooled : Stream → ℤ → BodyRead
  read_pooled s n = read_body next_cap (pool_get payload pool) s n

  unfoldable pub handle : Server → Stream → ℤ → Reply
  unfolding echo read_body gin_on_echo echo_on_echo beego_on_echo fib_on_request fasthttp_on_request
      fiber_on_echo hertz_on_echo
  handle standard s n = found (echo next_cap payload pool s n).0
  handle gin s n = gin_on_echo (read_pooled s n)
  handle echo_server s n = echo_on_echo (read_pooled s n)
  handle beego s n = beego_on_echo (read_pooled s n)
  handle fib s n = fib_on_request echo_path (read_pooled s n)
  handle fasthttp s n = fasthttp_on_request echo_path (content s)
  handle fiber s n = fiber_on_echo (content s)
  handle hertz s n = hertz_on_echo (content s)
