-- ===== src/Golib/Body.antt =====
-- `io.Reader` as the body of a request: what its reads deliver, and how they end.
pub mod Reads
use go_http_benchmark.Prelude.{
  ℕ, zero, suc, ◌+◌, Bool, true, false, List, [], ◌∷◌, ◌++◌, Option, none, some, Bytes, length,
  take, drop, leb, if◌then◌else◌,
}

-- The error of a read: the end, the end in the middle of what was asked for, or another one.
pub data ReadError : Type 0 where
  eof unexpected_eof : ReadError
  other : ℕ → ReadError

-- What is to come, read by read, and the error behind it; `joined` says that the error comes with
-- the last bytes and not in a read of its own.
pub record Stream : Type 0 where
  pub parts : List Bytes
  pub ending : ReadError
  pub joined : Bool

-- What a read with room for `n` bytes gives, and what it leaves. A part that is longer than the
-- room is read in pieces.
pub record Got : Type 0 where
  pub bytes : Bytes
  pub error : Option ReadError
  pub rest : Stream

abbrev ends : Stream → List Bytes → Option ReadError
ends s [] = if s.joined then some s.ending else none
ends s (p ∷ ps) = none

unfoldable pub read_part : ℕ → Stream → List Bytes → Got
read_part n s [] = record { bytes = []; error = some s.ending; rest = record s { parts = [] } }
read_part n s (p ∷ ps) =
    if leb (length p) n
    then record { bytes = p; error = ends s ps; rest = record s { parts = ps } }
    else record { bytes = take n p; error = none; rest = record s { parts = drop n p ∷ ps } }

-- `Read`.
unfoldable pub read : ℕ → Stream → Got
unfolding read_part
read n s = read_part n s s.parts

-- All the bytes to come.
abbrev pub joined_parts : List Bytes → Bytes
joined_parts [] = []
joined_parts (p ∷ ps) = p ++ joined_parts ps

abbrev pub content : Stream → Bytes
content s = joined_parts s.parts

-- `io.ReadFull` of `n` bytes: the bytes it read, and its error.
abbrev pub short_error : Bytes → ReadError → ReadError
short_error [] e = e
short_error (b ∷ bs) eof = unexpected_eof
short_error (b ∷ bs) unexpected_eof = unexpected_eof
short_error (b ∷ bs) (other k) = other k

unfoldable pub read_full_error : ℕ → Stream → Option ReadError
read_full_error n s =
    if leb n (length (content s)) then none else some (short_error (content s) s.ending)
