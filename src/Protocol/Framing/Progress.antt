-- ===== src/Protocol/Framing/Progress.antt =====
-- What a line and a body take off the reader.
use go_http_benchmark.Prelude.{◌<◌, ◌≡◌, ◌≢◌, arith, Bytes, length}
use go_http_benchmark.Golib.Reader.Lines.{read_slice-lt}
use go_http_benchmark.Golib.Reader.{
  IoError, Reader, Outcome, ok, fail, read_slice, eof, unexpected_eof, buffer_full, refused,
}
use go_http_benchmark.Protocol.Errors.{out_of_fuel, panic}
use go_http_benchmark.Protocol.Framing.{read_line, chopped}

chopped-eq_ok :
    (o : Outcome IoError Bytes) {line : Bytes} {r' : Reader}
    → chopped o ≡ ok line r'
    → (text : Bytes) × (o ≡ ok text r')
chopped-eq_ok (ok text r) h = (text, ground arith)
chopped-eq_ok (fail e r) h = cc

-- A line that was read is at least one byte fewer to come.
pub read_line-lt :
    (r : Reader) {line : Bytes} {r' : Reader}
    → read_line r ≡ ok line r'
    → length r'.unread < length r.unread
unfolding read_line
read_line-lt r h =
    let (text, e) = chopped-eq_ok (read_slice r b'\n') h in (read_slice-lt r b'\n' e).0

-- `readLine` runs on no fuel.
chopped_fuel : (o : Outcome IoError Bytes) (r' : Reader) → chopped o ≢ fail out_of_fuel r'
chopped_fuel (ok text r) r' h = cc
chopped_fuel (fail eof r) r' h = cc
chopped_fuel (fail unexpected_eof r) r' h = cc
chopped_fuel (fail buffer_full r) r' h = cc
chopped_fuel (fail (refused c) r) r' h = cc

pub read_line_fuel : (r r' : Reader) → read_line r ≢ fail out_of_fuel r'
unfolding read_line
read_line_fuel r = chopped_fuel (read_slice r b'\n')

-- Nor does it panic.
chopped_panic : (o : Outcome IoError Bytes) (r' : Reader) → chopped o ≢ fail panic r'
chopped_panic (ok text r) r' h = cc
chopped_panic (fail eof r) r' h = cc
chopped_panic (fail unexpected_eof r) r' h = cc
chopped_panic (fail buffer_full r) r' h = cc
chopped_panic (fail (refused c) r) r' h = cc

pub read_line_panic : (r r' : Reader) → read_line r ≢ fail panic r'
unfolding read_line
read_line_panic r = chopped_panic (read_slice r b'\n')
