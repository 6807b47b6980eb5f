-- ===== src/Protocol/Framing.antt =====
-- What `readResponse` and `readChunked` share: lines, the results that they return, and reading
-- or dropping a known number of body bytes.
pub mod Lines
pub mod Bodies
pub mod Progress
pub mod Agree
use go_http_benchmark.Prelude.{
  ℕ, ◌-◌, ◌*◌, ◌^◌, Bool, true, false, [], ◌∷◌, Option, none, some, Bytes, length, take, ◌==◌,
  if◌then◌else◌,
}
use go_http_benchmark.Golib.Slice.{Slice}
use go_http_benchmark.Golib.Reader.{
  IoError, buffer_full, eof, unexpected_eof, refused, Reader, Outcome, ok, fail, read_slice, Taken,
  read_full, discard,
}
use go_http_benchmark.Protocol.Errors.{Error, malformed_header, io, panic}
use go_http_benchmark.Protocol.Grow.{grow}

-- `MaxBodySize`, 64 << 20.
abbrev pub max_body_size : ℕ
max_body_size = 64 * 2 ^ 20

-- The four results of `readResponse`, and the reader that it leaves behind.
pub record Reply : Type 0 where
  pub status : ℕ
  pub body : Slice
  pub n : ℕ
  pub error : Option Error
  pub reader : Reader

-- `line[:n-1]` where the last byte is a carriage return.
abbrev chop_cr : Bytes → Bytes
chop_cr [] = []
chop_cr (c ∷ []) = if c == b'\r' then [] else c ∷ []
chop_cr (c ∷ d ∷ s) = c ∷ chop_cr (d ∷ s)

abbrev line_error : IoError → Error
line_error buffer_full = malformed_header
line_error eof = io eof
line_error unexpected_eof = io unexpected_eof
line_error (refused c) = io (refused c)

abbrev chopped : Outcome IoError Bytes → Outcome Error Bytes
chopped (ok line r) = ok (chop_cr (take (length line - 1) line)) r
chopped (fail e r) = fail (line_error e) r

-- `readLine`.
unfoldable pub read_line : Reader → Outcome Error Bytes
read_line r = chopped (read_slice r b'\n')

-- What the reading of a body leaves: the buffer, the error and the reader.
pub record Body : Type 0 where
  pub dst : Slice
  pub error : Option Error
  pub reader : Reader

abbrev lift_error : Option IoError → Option Error
lift_error none = none
lift_error (some e) = some (io e)

abbrev of_taken : Taken → Body
of_taken t = record { dst = t.dst; error = lift_error t.error; reader = t.reader }

abbrev read_into : Reader → Slice → ℕ → Option Slice → Body
read_into r dst n none = record { dst = dst; error = some panic; reader = r }
read_into r dst n (some b) = of_taken (read_full r b n)

-- `n` bytes of a body: read behind `dst` where the body is kept, and dropped where it is not.
unfoldable pub take_body : Reader → Slice → Bool → ℕ → Body
take_body r dst true n = read_into r dst n (grow dst n)
take_body r dst false n = of_taken (discard r dst n)
