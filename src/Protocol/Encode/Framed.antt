-- ===== src/Protocol/Encode/Framed.antt =====
-- A request that the client encodes, taken apart by the rules that it reads responses by.
use go_http_benchmark.Prelude.{
  ℕ, suc, ◌≤◌, ◌<◌, ◌≡◌, ◌≢◌, refl, ◌∙◌, ap, List, [], ◌∷◌, ◌++◌, append_assoc, Option, none, some,
  arith, Bytes, codes, length, All, false, equal, length-append,
}
use go_http_benchmark.Golib.Reader.{Reader, holding, ok}
use go_http_benchmark.Protocol.Ascii.{ascii_equal_fold}
use go_http_benchmark.Protocol.Encode.{encode_request}
use go_http_benchmark.Protocol.Framing.{read_line, max_body_size}
use go_http_benchmark.Protocol.Framing.Lines.{IsLine, crlf, read_line-line}
use go_http_benchmark.Protocol.Response.{Framing, no_framing, taken, read_headers}
use go_http_benchmark.Protocol.Response.Answer.{
  length_field, length_field-IsField, take_fields_other, named-length_field, IsOther,
}
use go_http_benchmark.Protocol.Response.Fields.{
  then_take, Field, field_line, fields_text, IsField, take_fields, read_headers-fields_text,
}
use go_http_benchmark.Protocol.Response.RoundTrip.{of_length, length-fields_text}

abbrev pub request_line : Bytes → Bytes → Bytes
request_line method path = method ++ b' ' ∷ (path ++ codes " HTTP/1.1")

abbrev pub host_field : Bytes → Field
host_field host = record { name = codes "Host"; value = host }

abbrev type_field : Field
type_field = record { name = codes "Content-Type"; value = codes "application/octet-stream" }

-- The fields of a request with a body, and of one without.
abbrev request_fields : Bytes → Option Bytes → List Field
request_fields host (some body) = host_field host ∷ type_field ∷ length_field (length body) ∷ []
request_fields host none = host_field host ∷ []

encode_request-fields_text :
    (method host path body : Bytes)
    → encode_request method host path (some body)
      ≡ request_line method path
        ++ (crlf ++ (fields_text (request_fields host (some body)) ++ (crlf ++ body)))
unfolding encode_request
encode_request-fields_text method host path body = simp append_assoc

encode_request-none :
    (method host path : Bytes)
    → equal method (codes "POST") ≡ false
    → equal method (codes "PUT") ≡ false
    → encode_request method host path none
      ≡ request_line method path
        ++ (crlf ++ (fields_text (request_fields host none) ++ (crlf ++ [])))
unfolding encode_request
encode_request-none method host path post put = rw (post, put) (simp append_assoc)

-- Reading a message's head: a line, then fields that leave the given framing.
abbrev pub Heads : Reader → Bytes → Framing → Bytes → Type 0
Heads r line f behind =
    (s : Reader) × (read_line r ≡ ok line s)
    × (read_headers (suc (length s.unread)) s no_framing ≡ ok f (holding s behind))

read_head :
    (r : Reader) (line : Bytes) (fields : List Field) {f : Framing} (behind : Bytes)
    → IsLine r.size line
    → All (IsField r.size) fields
    → take_fields no_framing fields ≡ taken f
    → Heads (holding r (line ++ (crlf ++ (fields_text fields ++ (crlf ++ behind))))) line f behind
read_head r line fields behind w h t =
    let rest = fields_text fields ++ (crlf ++ behind) in
    let enough : length fields < suc (length rest) =
      omega
        (arith, length-append (fields_text fields) (crlf ++ behind), length-fields_text fields) in
    (
      holding r rest,
      read_line-line r line rest w,
      read_headers-fields_text fields (suc (length rest)) r no_framing behind h
          (omega (arith, w.fits)) t enough,
    )

field_ok :
    (size : ℕ) (x : Field)
    → x.name ≢ []
    → All (λ c. c ≢ b':') x.name
    → IsLine size (field_line x)
    → IsField size x
field_ok size x ne no_colon line = record { named_field = ne; no_colon = no_colon; line = line }

host-IsOther : (host : Bytes) → IsOther (host_field host)
unfolding ascii_equal_fold
host-IsOther host = (refl, refl)

type-IsOther : IsOther type_field
unfolding ascii_equal_fold
type-IsOther = (refl, refl)

body_framing :
    (host body : Bytes)
    → length body ≤ max_body_size
    → take_fields no_framing (request_fields host (some body)) ≡ taken (of_length (length body))
body_framing host body small =
    take_fields_other no_framing (host_field host ∷ type_field ∷ [])
      (length_field (length body) ∷ []) (host-IsOther host, (type-IsOther, tt))
    ∙ rw (named-length_field no_framing (length body) (omega arith), then_take)

host_IsField :
    (size : ℕ) (host : Bytes)
    → IsLine size (field_line (host_field host))
    → IsField size (host_field host)
host_IsField size host h = field_ok size (host_field host) (cc) (omega arith) h

type_IsField : (size : ℕ) → 64 ≤ size → IsField size type_field
type_IsField size h =
    field_ok size type_field (cc) (omega arith)
      (record { no_newline = omega arith; fits = omega arith })

request_apart :
    (line : Bytes) (fields : List Field) (body rest : Bytes)
    → (line ++ (crlf ++ (fields_text fields ++ (crlf ++ body)))) ++ rest
      ≡ line ++ (crlf ++ (fields_text fields ++ (crlf ++ (body ++ rest))))
request_apart line fields body rest =
    append_assoc line (crlf ++ (fields_text fields ++ (crlf ++ body))) rest
    ∙ ap (λ t. line ++ (crlf ++ t)) (append_assoc (fields_text fields) (crlf ++ body) rest)

-- A request with a body, whatever the method, host and path as long as its first two lines fit
-- the reading buffer and hold no line feed: read as a message by the rules of this protocol, it is
-- its request line and header fields that delimit exactly the body, with the body behind them.
pub encode_request-body :
    (r : Reader) (method host path body rest : Bytes)
    → IsLine r.size (request_line method path)
    → IsLine r.size (field_line (host_field host))
    → 64 ≤ r.size
    → length body ≤ max_body_size
    → Heads
        (holding r (encode_request method host path (some body) ++ rest))
        (request_line method path)
        (of_length (length body))
        (body ++ rest)
encode_request-body r method host path body rest line host_line room small =
    let fields = request_fields host (some body) in
    rw
      (
        encode_request-fields_text method host path body,
        request_apart (request_line method path) fields body rest,
      )
      (read_head r (request_line method path) fields (body ++ rest) line
        (
          host_IsField r.size host host_line,
          (type_IsField r.size room, (length_field-IsField r.size (length body) small room, tt)),
        )
        (body_framing host body small))

-- A request without a body, by a method other than POST and PUT, is its request line and a Host
-- field, with no word of a body, and nothing of it is left behind its head.
pub encode_request-no_body :
    (r : Reader) (method host path rest : Bytes)
    → equal method (codes "POST") ≡ false
    → equal method (codes "PUT") ≡ false
    → IsLine r.size (request_line method path)
    → IsLine r.size (field_line (host_field host))
    → Heads
        (holding r (encode_request method host path none ++ rest))
        (request_line method path)
        no_framing
        rest
encode_request-no_body r method host path rest post put line host_line =
    let fields = request_fields host none in
    rw
      (
        encode_request-none method host path post put,
        request_apart (request_line method path) fields [] rest,
      )
      (read_head r (request_line method path) fields rest line
        (host_IsField r.size host host_line, tt)
        (take_fields_other no_framing (host_field host ∷ []) [] (host-IsOther host, tt)))
