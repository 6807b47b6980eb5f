-- ===== src/Servers/Echo.antt =====
-- frameworks/handlers.go: reading a request's body into a pooled buffer, and echoing it.
pub mod Body
pub mod Refine
use go_http_benchmark.Prelude.{
  ℕ, zero, suc, ◌+◌, ◌-◌, Bool, true, false, List, [], ◌∷◌, ◌++◌, Option, none, some, Bytes, codes,
  length, take, drop, replicate, ltb, ◌==◌, if◌then◌else◌, ℤ, pos, negsuc,
}
use go_http_benchmark.Golib.Body.{
  Stream, Got, ReadError, read, read_full_error, content, eof, unexpected_eof, other,
}
use go_http_benchmark.Golib.Slice.{Slice, cap, view, reset, extend}
use go_http_benchmark.Golib.Strconv.{itoa}

-- `make([]byte, n)`.
abbrev pub make : ℕ → Slice
make n = record { len = n; array = replicate n 0 }

-- The results of `ReadBody`, the buffer that is put back into the pool, and whether the fuel was
-- enough.
pub record BodyRead : Type 0 where
  pub body : Slice
  pub buffer : Slice
  pub error : Option ReadError
  pub in_time : Bool

-- `err` of the loop: nil at the end.
abbrev pub not_eof : ReadError → Option ReadError
not_eof eof = none
not_eof unexpected_eof = some unexpected_eof
not_eof (other k) = some (other k)

-- `buf[:n]` written over with what `io.ReadFull` read.
abbrev pub filled : Slice → ℕ → Bytes → Slice
filled b n s = record { len = n; array = s ++ drop (length s) b.array }

-- What `Echo` answers: an error with status 400, or the headers that it sets and the body.
pub data Served : Type 0 where
  bad_request : ReadError → Served
  echoed : List (Bytes × Bytes) → Bytes → Served

abbrev pub headers_for : Bytes → List (Bytes × Bytes)
headers_for body =
    (codes "Content-Type", codes "application/octet-stream")
    ∷ (codes "Content-Length", itoa (length body))
    ∷ []

abbrev pub answer : Option ReadError → Bytes → Served
answer (some e) body = bad_request e
answer none body = echoed (headers_for body) body

-- `BodyPool`: the buffers in it, of which `Get` takes the first or makes one of `payload` bytes.
abbrev pub pool_get : ℕ → List Slice → Slice
pool_get payload [] = make payload
pool_get payload (b ∷ pool) = b

abbrev pub pool_rest : List Slice → List Slice
pool_rest [] = []
pool_rest (b ∷ pool) = pool

-- `next_cap` is the capacity that `append` gives a full slice of a given one.
module _ (next_cap : ℕ → ℕ) where
  -- `append(buf, 0)[:len(buf)]` where the buffer is full.
  abbrev pub roomy : Slice → Slice
  roomy b =
      if b.len == cap b
      then record b { array = b.array ++ replicate (next_cap (cap b) - cap b) 0 }
      else b

  -- The loop over the reads of a body of unknown length.
  unfoldable pub read_rest : ℕ → Stream → Slice → BodyRead
  unfolding read extend
  read_rest zero s b = record { body = b; buffer = reset b; error = none; in_time = false }
  read_rest (suc fuel) s b =
      let got = read (cap (roomy b) - b.len) s in
      let b' = extend (roomy b) got.bytes in
      elim got.error [
        | some e ↦ record { body = b'; buffer = reset b'; error = not_eof e; in_time = true }
        | none ↦ read_rest fuel got.rest b'
      ]

  abbrev pub fit : ℕ → Slice → Slice
  fit n b = if ltb (cap b) n then make n else b

  -- `ReadBody`, with the buffer that the pool gave. Each read of the loop takes a byte or a part of
  -- the stream, so these bound its rounds.
  unfoldable pub read_body : Slice → Stream → ℤ → BodyRead
  unfolding read_rest read_full_error
  read_body b s (pos n) =
      let buf = filled (fit n b) n (take n (content s)) in
      record {
        body = buf;
        buffer = record { len = (fit n b).len; array = buf.array };
        error = read_full_error n s;
        in_time = true;
      }
  read_body b s (negsuc k) = read_rest (suc (length (content s) + length s.parts)) s (reset b)

  -- `Echo` of a request with a content length, and the pool behind it.
  unfoldable pub echo : ℕ → List Slice → Stream → ℤ → Served × List Slice
  unfolding read_body itoa
  echo payload pool s content_length =
      let r = read_body (pool_get payload pool) s content_length in
      (answer r.error (view r.body), r.buffer ∷ pool_rest pool)

  -- The requests of a server, one behind the other.
  unfoldable pub echo_all : ℕ → List Slice → List (Stream × ℤ) → List Served
  unfolding echo
  echo_all payload pool [] = []
  echo_all payload pool ((s, n) ∷ requests) =
      let (served, pool') = echo payload pool s n in served ∷ echo_all payload pool' requests
