-- ===== src/Protocol/Encode.antt =====
-- `EncodeRequest`.
pub mod Framed
use go_http_benchmark.Prelude.{
  Bool, true, false, ◌||◌, [], ◌∷◌, ◌++◌, Option, none, some, Bytes, codes, equal, length,
  if◌then◌else◌,
}
use go_http_benchmark.Golib.Strconv.{itoa}

-- `body != nil`, and the bytes of a body that may be nil.
abbrev pub is_set : Option Bytes → Bool
is_set none = false
is_set (some b) = true

abbrev pub bytes_of : Option Bytes → Bytes
bytes_of none = []
bytes_of (some b) = b

abbrev body_headers : Bytes → Bytes
body_headers body =
    codes "Content-Type: application/octet-stream\r\nContent-Length: "
    ++ (itoa (length body) ++ codes "\r\n")

unfoldable pub encode_request : Bytes → Bytes → Bytes → Option Bytes → Bytes
encode_request method host path body =
    let buf =
      method ++ (b' ' ∷ (path ++ (codes " HTTP/1.1\r\nHost: " ++ (host ++ codes "\r\n")))) in
    let headed =
      if is_set body || equal method (codes "POST") || equal method (codes "PUT")
      then buf ++ body_headers (bytes_of body)
      else buf in
    (headed ++ codes "\r\n") ++ bytes_of body
