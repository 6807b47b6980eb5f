-- ===== src/Golib/Reader/Lines.antt =====
-- Lines read off a reader.
use go_http_benchmark.Prelude.{
  Option, none, refl, length-drop, ◌-◌, ℕ, suc, ◌<◌, ◌≡◌, ◌≢◌, refl, [], ◌∷◌, ◌++◌, some, arith,
  Bytes, length, All, take, drop, ap, lt→ltb,
}
use go_http_benchmark.Golib.Text.{index_byte}
use go_http_benchmark.Golib.Reader.{Reader, holding, read_slice, line_at, ok}

-- A byte that is nowhere in `s` is found where it stands behind `s`.
pub index_byte-append :
    (s rest : Bytes) (b : ℕ) → All (λ c. c ≢ b) s → index_byte (s ++ b ∷ rest) b ≡ some (length s)
unfolding index_byte
index_byte-append [] rest b h = ground arith
index_byte-append (c ∷ s) rest b h = ground (arith, index_byte-append s rest b)

pub take_line : (s rest : Bytes) (b : ℕ) → take (suc (length s)) (s ++ b ∷ rest) ≡ s ++ b ∷ []
take_line [] rest b = refl
take_line (c ∷ s) rest b = ap (◌∷◌ c) (take_line s rest b)

pub drop_line : (s rest : Bytes) (b : ℕ) → drop (suc (length s)) (s ++ b ∷ rest) ≡ rest
drop_line [] rest b = refl
drop_line (c ∷ s) rest b = drop_line s rest b

-- Text that holds no delimiter is read up to the delimiter behind it, if the buffer has room.
pub read_slice-line :
    (r : Reader) (s rest : Bytes) (b : ℕ)
    → All (λ c. c ≢ b) s
    → length s < r.size
    → read_slice (holding r (s ++ b ∷ rest)) b ≡ ok (s ++ b ∷ []) (holding r rest)
unfolding read_slice
read_slice-line r s rest b h fits =
    rw (index_byte-append s rest b h, line_at, lt→ltb _ _ fits)
      (rw (take_line s rest b, drop_line s rest b) refl)

index_byte-lt : (s : Bytes) (b i : ℕ) → index_byte s b ≡ some i → i < length s
unfolding index_byte
index_byte-lt [] b i h = cc
index_byte-lt (c ∷ s) b i h = ground (arith, index_byte-lt s b (i - 1))

line_at-lt :
    (r : Reader) (o : Option ℕ) {line : Bytes} {r' : Reader}
    → ((i : ℕ) → o ≡ some i → i < length r.unread)
    → line_at r o ≡ ok line r'
    → (length r'.unread < length r.unread) × (r'.size ≡ r.size)
line_at-lt r none below h = ground arith
line_at-lt r (some i) below h = ground (arith, below i refl, length-drop (suc i) r.unread)

-- A line that was read is at least one byte fewer to come, in the same buffer.
pub read_slice-lt :
    (r : Reader) (b : ℕ) {line : Bytes} {r' : Reader}
    → read_slice r b ≡ ok line r'
    → (length r'.unread < length r.unread) × (r'.size ≡ r.size)
unfolding read_slice
read_slice-lt r b h = line_at-lt r (index_byte r.unread b) (index_byte-lt r.unread b) h
