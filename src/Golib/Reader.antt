-- ===== src/Golib/Reader.antt =====
-- A `bufio.Reader` over a connection. `unread` is all that the connection still delivers, and
-- `ending` the error that it gives behind that; `size` is the size of the reader's buffer.
pub mod Lines
use go_http_benchmark.Prelude.{
  ℕ, suc, ◌≡◌, refl, ◌⊎◌, inl, inr, Bool, true, false, [], Option, none, some, Bytes, take, drop,
  length, ltb, leb, ◌==◌, if◌then◌else◌,
}
use go_http_benchmark.Golib.Text.{index_byte}
use go_http_benchmark.Golib.Slice.{Slice, fill}

-- `refused` stands for the connection's own errors: a deadline that passed, a reset.
pub data IoError : Type 0 where
  eof unexpected_eof buffer_full : IoError
  refused : ℕ → IoError

pub record Reader : Type 0 where
  pub size : ℕ
  pub unread : Bytes
  pub ending : IoError

-- A value or an error, and the reader behind it.
pub data Outcome {ℓ} (E : Type ℓ) (A : Type ℓ) : Type ℓ where
  ok : A → Reader → Outcome E A
  fail : E → Reader → Outcome E A

-- The same reader with other bytes to come.
abbrev pub holding : Reader → Bytes → Reader
holding r s = record r { unread = s }

abbrev pub drained : Reader → Reader
drained r = record r { unread = [] }

-- What `ReadSlice` does when its buffer holds no delimiter: it fills up, or the connection ends.
abbrev no_line : Reader → Outcome IoError Bytes
no_line r =
    if leb r.size (length r.unread)
    then fail buffer_full (record r { unread = drop r.size r.unread })
    else fail r.ending (drained r)

abbrev line_at : Reader → Option ℕ → Outcome IoError Bytes
line_at r none = no_line r
line_at r (some i) =
    if ltb i r.size
    then ok (take (suc i) r.unread) (record r { unread = drop (suc i) r.unread })
    else no_line r

-- `ReadSlice(delim)`: the bytes up to the delimiter, which is the last of them.
unfoldable pub read_slice : Reader → ℕ → Outcome IoError Bytes
read_slice r delim = line_at r (index_byte r.unread delim)

-- A buffer that was read into, the error, and the reader behind it.
pub record Taken : Type 0 where
  pub dst : Slice
  pub error : Option IoError
  pub reader : Reader

abbrev short_of : Bool → IoError → IoError
short_of true e = e
short_of false eof = unexpected_eof
short_of false e = e

-- `io.ReadFull` into the last `n` bytes of `b`.
unfoldable pub read_full : Reader → Slice → ℕ → Taken
read_full r b n =
    let dst = fill b n (take n r.unread) in
    if leb n (length r.unread)
    then record { dst = dst; error = none; reader = record r { unread = drop n r.unread } }
    else record {
      dst = dst;
      error = some (short_of (length r.unread == 0) r.ending);
      reader = drained r;
    }

-- `Discard(n)`; the buffer that it is handed stays as it is.
unfoldable pub discard : Reader → Slice → ℕ → Taken
discard r b n =
    if leb n (length r.unread)
    then record { dst = b; error = none; reader = record r { unread = drop n r.unread } }
    else record { dst = b; error = some r.ending; reader = drained r }

-- To split on what was read and keep the equation.
pub Outcome-cases {ℓ} :
    {E A : Type ℓ} (o : Outcome E A)
    → ((a : A) × (r : Reader) × (o ≡ ok a r)) ⊎ ((e : E) × (r : Reader) × (o ≡ fail e r))
Outcome-cases (ok a r) = inl (a, r, refl)
Outcome-cases (fail e r) = inr (e, r, refl)
