-- ===== src/Protocol/Chunked.antt =====
-- `readChunked`. The total is the bit pattern of Go's 64-bit `int`, so its sum with a chunk's
-- size wraps around as the source's does.
pub mod Steps
pub mod Fuel
pub mod Progress
pub mod Agree
pub mod Chunks
pub mod RoundTrip
pub mod Overflow
pub mod Panics
use go_http_benchmark.Prelude.{
  ℕ, zero, suc, ◌+◌, ◌%◌, ◌^◌, Bool, true, false, ◌&&◌, [], ◌∷◌, Option, none, some, Bytes, length,
  take, ltb, ◌==◌, if◌then◌else◌, ℤ, pos, negsuc,
}
use go_http_benchmark.Golib.Slice.{Slice}
use go_http_benchmark.Golib.Reader.{Reader, Outcome, ok, fail}
use go_http_benchmark.Golib.Strconv.{parse_int, int_limit}
use go_http_benchmark.Golib.Text.{index_byte, trim_space}
use go_http_benchmark.Protocol.Errors.{Error, malformed_chunk, body_too_large, out_of_fuel, io}
use go_http_benchmark.Protocol.Framing.{Reply, Body, read_line, take_body, max_body_size}

abbrev before_semi : Bytes → Option ℕ → Bytes
before_semi line none = line
before_semi line (some i) = take i line

abbrev not_negative : Option ℤ → Option ℕ
not_negative none = none
not_negative (some (pos n)) = some n
not_negative (some (negsuc n)) = none

-- The size on a chunk's first line; `none` is `ErrMalformedChunk`.
unfoldable pub chunk_size : Bytes → Option ℕ
chunk_size line = not_negative (parse_int 16 (trim_space (before_semi line (index_byte line b';'))))

-- `int64(total)+size`, as a bit pattern.
abbrev pub add_total : ℕ → ℕ → ℕ
add_total total size = (total + size) % 2 ^ 64

-- `int64(total)+size > MaxBodySize`: a pattern with the top bit set is a negative number.
abbrev pub too_large : ℕ → ℕ → Bool
too_large total size =
    ltb (add_total total size) int_limit && ltb max_body_size (add_total total size)

-- Where one round of a loop leaves off: it returns, or goes on with a buffer, a total and a reader.
pub data Round : Type 0 where
  returned : Reply → Round
  again : Slice → ℕ → Reader → Round

abbrev pub give : ℕ → Slice → ℕ → Option Error → Reader → Reply
give status dst total e r = record { status = status; body = dst; n = total; error = e; reader = r }

abbrev chunk_end : ℕ → Slice → ℕ → Outcome Error Bytes → Round
chunk_end status dst total (fail e r) = returned (give status dst total (some e) r)
chunk_end status dst total (ok [] r) = again dst total r
chunk_end status dst total (ok (c ∷ line) r) =
    returned (give status dst total (some malformed_chunk) r)

-- What follows the reading of a chunk's bytes.
abbrev chunk_taken : ℕ → ℕ → ℕ → Slice → Option Error → Reader → Round
chunk_taken status total size dst (some e) r = returned (give status dst total (some e) r)
chunk_taken status total size dst none r = chunk_end status dst (add_total total size) (read_line r)

-- One chunk of `size` bytes, its first line read.
unfoldable pub read_chunk : Reader → ℕ → Slice → Bool → ℕ → ℕ → Round
read_chunk r status dst keep total size =
    if too_large total size
    then returned (give status dst total (some body_too_large) r)
    else let b = take_body r dst keep size in chunk_taken status total size b.dst b.error b.reader

-- The lines of the trailer, up to the blank one.
unfoldable pub read_trailer : ℕ → Reader → ℕ → Slice → ℕ → Reply
read_trailer zero r status dst total = give status dst total (some out_of_fuel) r
read_trailer (suc fuel) r status dst total = elim (read_line r) [
  | fail e r' ↦ give status dst total (some e) r'
  | ok line r' ↦ elim line [
    | [] ↦ give status dst total none r'
    | c ∷ s ↦ read_trailer fuel r' status dst total
  ]
]

abbrev sized : Reader → ℕ → Slice → Bool → ℕ → Option ℕ → Round
sized r status dst keep total none = returned (give status dst total (some malformed_chunk) r)
sized r status dst keep total (some zero) =
    returned (read_trailer (suc (length r.unread)) r status dst total)
sized r status dst keep total (some (suc k)) = read_chunk r status dst keep total (suc k)

-- One round of the loop of `readChunked`.
unfoldable pub chunk_round : Reader → ℕ → Slice → Bool → ℕ → Round
unfolding read_chunk
chunk_round r status dst keep total = elim (read_line r) [
  | fail e r' ↦ returned (give status dst total (some e) r')
  | ok line r' ↦ sized r' status dst keep total (chunk_size line)
]

pub chunk_loop : ℕ → Reader → ℕ → Slice → Bool → ℕ → Reply
chunk_loop zero r status dst keep total = give status dst total (some out_of_fuel) r
chunk_loop (suc fuel) r status dst keep total = elim (chunk_round r status dst keep total) [
  | returned reply ↦ reply
  | again dst' total' r' ↦ chunk_loop fuel r' status dst' keep total'
]

-- `readChunked`. Each round reads a line, so the bytes unread bound the rounds.
unfoldable pub read_chunked : Reader → ℕ → Slice → Bool → Reply
unfolding chunk_loop
read_chunked r status dst keep = chunk_loop (suc (length r.unread)) r status dst keep 0
