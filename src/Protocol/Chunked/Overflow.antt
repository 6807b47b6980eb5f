-- ===== src/Protocol/Chunked/Overflow.antt =====
-- The size test of `readChunked` on sizes that overflow the running total.
use go_http_benchmark.Prelude.{ℕ, ◌+◌, ◌≤◌, ◌<◌, ◌≡◌, true, false, some, arith, length}
use go_http_benchmark.Golib.Slice.{Slice, IsSlice, cap}
use go_http_benchmark.Golib.Strconv.{int_limit}
use go_http_benchmark.Golib.Reader.{Reader, drained, discard}
use go_http_benchmark.Protocol.Errors.{io, panic}
use go_http_benchmark.Protocol.Framing.{take_body, max_body_size}
use go_http_benchmark.Protocol.Grow.{grow}
use go_http_benchmark.Protocol.Chunked.{give, returned, read_chunk}

-- The size test of readChunked is passed by every chunk whose size overflows the running total:
-- once a byte has been read, a chunk size from 2^63 - total on, however far above MaxBodySize, is
-- not refused with ErrBodyTooLarge. With fewer bytes to come than that, DiscardResponse then
-- drops all that the connection still delivers, and returns the connection's error.
pub read_chunk_overflow :
    (r : Reader) (status total size : ℕ) (dst : Slice)
    → total ≤ max_body_size
    → size < int_limit
    → int_limit ≤ total + size
    → length r.unread < size
    → (max_body_size < size)
      × (read_chunk r status dst false total size
          ≡ returned (give status dst total (some (io r.ending)) (drained r)))
unfolding read_chunk take_body discard
read_chunk_overflow r status total size dst small int over short = (omega arith, ground arith)

-- With room for the body kept, the same chunk makes `grow` panic.
pub read_chunk_panic :
    (r : Reader) (status total size : ℕ) (dst : Slice)
    → dst.len ≡ total
    → IsSlice dst
    → cap dst < size
    → total ≤ max_body_size
    → size < int_limit
    → int_limit ≤ total + size
    → read_chunk r status dst true total size ≡ returned (give status dst total (some panic) r)
unfolding read_chunk take_body grow
read_chunk_panic r status total size dst len s few small int over = ground arith
