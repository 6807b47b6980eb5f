-- ===== src/Protocol/Response.antt =====
-- `readLine`, `readResponse`, `ReadResponse` and `DiscardResponse`.
pub mod Fields
pub mod RoundTrip
pub mod Answer
pub mod Headers
pub mod Panics
pub mod Agree
pub mod Progress
use go_http_benchmark.Prelude.{
  ℕ, zero, suc, ◌+◌, ◌-◌, ◌*◌, ◌/◌, ◌^◌, Bool, true, false, ◌||◌, [], ◌∷◌, Option, none, some,
  Bytes, codes, length, take, drop, ltb, leb, ◌==◌, if◌then◌else◌, ℤ, pos, negsuc,
}
use go_http_benchmark.Golib.Slice.{Slice, view, reset, nil}
use go_http_benchmark.Golib.Reader.{
  IoError, buffer_full, eof, unexpected_eof, refused, Reader, Outcome, ok, fail, read_slice, Taken,
  read_full, discard,
}
use go_http_benchmark.Golib.Strconv.{atoi}
use go_http_benchmark.Golib.Text.{index_byte, trim_space, to_lower, contains}
use go_http_benchmark.Protocol.Ascii.{ascii_equal_fold, parse_status}
use go_http_benchmark.Protocol.Chunked.{read_chunked}
use go_http_benchmark.Protocol.Errors.{
  Error, malformed_status, malformed_header, bad_content_length, no_length, body_too_large, io,
  out_of_fuel,
}
use go_http_benchmark.Protocol.Framing.{Reply, read_line, take_body, max_body_size}

-- `contentLength` and `chunked`.
pub record Framing : Type 0 where
  pub content_length : ℤ
  pub chunked : Bool

abbrev pub no_framing : Framing
no_framing = record { content_length = negsuc 0; chunked = false }

-- A header line taken or refused.
pub data Header : Type 0 where
  taken : Framing → Header
  refused_line : Error → Header

abbrev with_length : Framing → Option ℤ → Header
with_length f none = refused_line bad_content_length
with_length f (some (negsuc n)) = refused_line bad_content_length
with_length f (some (pos n)) = taken (record f { content_length = pos n })

-- The switch on a header's name.
unfoldable pub named : Framing → Bytes → Bytes → Header
named f name value =
    if ascii_equal_fold name (codes "Content-Length")
    then with_length f (atoi value)
    else if ascii_equal_fold name (codes "Transfer-Encoding")
    then taken (record f { chunked = contains (to_lower value) (codes "chunked") })
    else taken f

abbrev pub split_at : Framing → Bytes → Option ℕ → Header
split_at f line none = refused_line malformed_header
split_at f line (some zero) = refused_line malformed_header
split_at f line (some (suc i)) = named f (take (suc i) line) (trim_space (drop (suc (suc i)) line))

-- One header line that is not blank.
unfoldable pub header_line : Framing → Bytes → Header
header_line f line = split_at f line (index_byte line b':')

-- The header lines up to the blank one.
unfoldable pub read_headers : ℕ → Reader → Framing → Outcome Error Framing
read_headers zero r f = fail out_of_fuel r
read_headers (suc fuel) r f = elim (read_line r) [
  | fail e r' ↦ fail e r'
  | ok line r' ↦ elim line [
    | [] ↦ ok f r'
    | c ∷ s ↦ elim (header_line f (c ∷ s)) [
      | refused_line e ↦ fail e r'
      | taken f' ↦ read_headers fuel r' f'
    ]
  ]
]

abbrev give : ℕ → Slice → ℕ → Option Error → Reader → Reply
give status dst n e r = record { status = status; body = dst; n = n; error = e; reader = r }

-- A body of the length that the header gave.
abbrev sized_body : Reader → ℕ → Slice → Bool → ℤ → Reply
sized_body r status dst keep (negsuc k) = give status dst 0 (some no_length) r
sized_body r status dst keep (pos n) =
    if ltb max_body_size n
    then give status dst 0 (some body_too_large) r
    else let b = take_body r dst keep n in give status b.dst n b.error b.reader

-- The switch on how the body is delimited.
unfoldable pub read_framed : Reader → ℕ → Slice → Bool → Framing → Reply
read_framed r status dst keep f =
    if status / 100 == 1 || status == 204 || status == 304
    then give status dst 0 none r
    else if f.chunked
    then read_chunked r status dst keep
    else sized_body r status dst keep f.content_length

abbrev behind_headers : ℕ → Slice → Bool → Outcome Error Framing → Reply
behind_headers status dst keep (fail e r) = give status dst 0 (some e) r
behind_headers status dst keep (ok f r) = read_framed r status dst keep f

abbrev behind_status : Slice → Bool → Reader → Option ℕ → Reply
behind_status dst keep r none = give 0 dst 0 (some malformed_status) r
behind_status dst keep r (some status) =
    behind_headers status dst keep (read_headers (suc (length r.unread)) r no_framing)

abbrev behind_line : Slice → Bool → Outcome Error Bytes → Reply
behind_line dst keep (fail e r) = give 0 dst 0 (some e) r
behind_line dst keep (ok line r) = behind_status dst keep r (parse_status line)

-- `readResponse`.
unfoldable pub read_reply : Reader → Slice → Bool → Reply
read_reply r dst keep = behind_line dst keep (read_line r)

-- `ReadResponse`: the body is appended to `dst[:0]`.
unfoldable pub read_response : Reader → Slice → Reply
read_response r dst = read_reply r (reset dst) true

-- `DiscardResponse`.
unfoldable pub discard_response : Reader → Reply
discard_response r = read_reply r nil false
