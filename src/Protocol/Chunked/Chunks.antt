-- ===== src/Protocol/Chunked/Chunks.antt =====
-- One chunk as a server writes it, read back by one round of the loop.
use go_http_benchmark.Prelude.{
  ℕ, zero, suc, ◌+◌, ◌≤◌, ◌<◌, ◌≡◌, ◌≢◌, refl, ◌∙◌, ap, Bool, true, false, none, some, List, [],
  ◌∷◌, ◌++◌, append_assoc, arith, length, Bytes, All, if◌then◌else◌, take-append,
}
use go_http_benchmark.Golib.Slice.{Slice, view, IsSlice}
use go_http_benchmark.Golib.Strconv.{int_limit, hex}
use go_http_benchmark.Golib.Strconv.Printed.{parse_int-hex, hex-IsPlain, IsPlain}
use go_http_benchmark.Golib.Text.{index_byte, trim_space, is_space}
use go_http_benchmark.Golib.Text.Trim.{trim_keep}
use go_http_benchmark.Golib.Reader.{Reader, holding}
use go_http_benchmark.Golib.Reader.Lines.{index_byte-append}
use go_http_benchmark.Protocol.Framing.{Body, take_body, max_body_size}
use go_http_benchmark.Protocol.Framing.Bodies.{take_body-Arrived}
use go_http_benchmark.Protocol.Framing.Lines.{IsLine, crlf, read_line-line}
use go_http_benchmark.Protocol.Chunked.{
  chunk_size, before_semi, too_large, add_total, again, chunk_end, chunk_taken, read_chunk, sized,
  chunk_round,
}
use go_http_benchmark.Protocol.Chunked.Steps

-- A chunk: what stands behind the semicolon of its first line, if anything, and its bytes.
pub record Chunk : Type 0 where
  pub extension : Bytes
  pub text : Bytes

abbrev pub size_line : ℕ → Bytes → Bytes
size_line n [] = hex n
size_line n (c ∷ s) = hex n ++ b';' ∷ c ∷ s

abbrev pub chunk_text : Chunk → Bytes
chunk_text c = size_line (length c.text) c.extension ++ (crlf ++ (c.text ++ crlf))

abbrev pub chunks_text : List Chunk → Bytes
chunks_text [] = []
chunks_text (c ∷ cs) = chunk_text c ++ chunks_text cs

-- The bytes of all the chunks.
abbrev pub content : List Chunk → Bytes
content [] = []
content (c ∷ cs) = c.text ++ content cs

-- A chunk with bytes in it, on a line that the reader can take.
pub record IsChunk (size : ℕ) (c : Chunk) : Type 0 where
  pub not_empty : c.text ≢ []
  pub line : IsLine size (size_line (length c.text) c.extension)

hex-trim : (n : ℕ) → trim_space (hex n) ≡ hex n
unfolding trim_space
hex-trim n = trim_keep is_space (hex n) (plain (hex n) (hex-IsPlain n))
  where
    plain : (s : Bytes) → All IsPlain s → All (λ c. is_space c ≡ false) s
    plain [] h = tt
    plain (c ∷ s) (hc, hs) = (ground arith, plain s hs)

no_semi : (s : Bytes) → All IsPlain s → All (λ c. c ≢ b';') s
no_semi [] h = tt
no_semi (c ∷ s) (hc, hs) = (hc.2, no_semi s hs)

index_byte-none : (s : Bytes) (b : ℕ) → All (λ c. c ≢ b) s → index_byte s b ≡ none
unfolding index_byte
index_byte-none [] b h = refl
index_byte-none (c ∷ s) b (hc, hs) = ground (arith, index_byte-none s b hs)

-- A chunk's size is read off its first line, whatever extension stands there.
pub chunk_size-size_line :
    (n : ℕ) (extension : Bytes) → n < int_limit → chunk_size (size_line n extension) ≡ some n
unfolding chunk_size
chunk_size-size_line n [] h = rw (
  index_byte-none (hex n) b';' (no_semi (hex n) (hex-IsPlain n)),
  before_semi,
  hex-trim n,
  parse_int-hex n h,
)
chunk_size-size_line n (c ∷ s) h = rw (
  index_byte-append (hex n) (c ∷ s) b';' (no_semi (hex n) (hex-IsPlain n)),
  before_semi,
  take-append (hex n) (b';' ∷ c ∷ s),
  hex-trim n,
  parse_int-hex n h,
)

chunk_apart :
    (c : Chunk) (rest : Bytes)
    → chunk_text c ++ rest
      ≡ size_line (length c.text) c.extension ++ (crlf ++ (c.text ++ (crlf ++ rest)))
chunk_apart c rest =
    let line = size_line (length c.text) c.extension in
    append_assoc line (crlf ++ (c.text ++ crlf)) rest
    ∙ ap (λ t. line ++ (crlf ++ t)) (append_assoc c.text crlf rest)

sized_pos :
    (r : Reader) (status : ℕ) (dst : Slice) (keep : Bool) (total n : ℕ)
    → n ≢ 0
    → sized r status dst keep total (some n) ≡ read_chunk r status dst keep total n
sized_pos r status dst keep total zero h = absurd (h refl)
sized_pos r status dst keep total (suc n) h = refl

length-ne-zero : (s : Bytes) → s ≢ [] → length s ≢ 0
length-ne-zero [] h = absurd (h refl)
length-ne-zero (c ∷ s) h = omega arith

not_too_large : (total size : ℕ) → total + size ≤ max_body_size → too_large total size ≡ false
not_too_large total size h = ground arith

-- The bytes of a chunk, and the line end behind them.
read_chunk-Arrived :
    (r : Reader) (status : ℕ) (dst : Slice) (keep : Bool) (total size : ℕ) {b : Body} (rest : Bytes)
    → total + size ≤ max_body_size
    → take_body r dst keep size ≡ b
    → b.error ≡ none
    → b.reader ≡ holding r (crlf ++ rest)
    → 2 ≤ r.size
    → read_chunk r status dst keep total size ≡ again b.dst (total + size) (holding r rest)
unfolding read_chunk
read_chunk-Arrived r status dst keep total size rest small eb none' reader' two =
    let sum : add_total total size ≡ total + size = omega arith in
    let blank = read_line-line r [] rest (record { no_newline = tt; fits = two }) in
    rw (not_too_large total size small, eb)
      (rw (none', reader', chunk_taken, sum) (rw (blank, chunk_end)))

-- One chunk is taken whole.
pub chunk_round-chunk_text :
    (r : Reader) (status : ℕ) (dst : Slice) (keep : Bool) (total : ℕ) (c : Chunk) (rest : Bytes)
    → IsChunk r.size c
    → IsSlice dst
    → dst.len ≤ total
    → total + length c.text ≤ max_body_size
    → (dst' : Slice) × (chunk_round (holding r (chunk_text c ++ rest)) status dst keep total
        ≡ again dst' (total + length c.text) (holding r rest))
      × (view dst' ≡ view dst ++ (if keep then c.text else []))
      × IsSlice dst'
      × (dst'.len ≤ total + length c.text)
chunk_round-chunk_text r status dst keep total c rest w s len small =
    let n = length c.text in
    let r' = holding r (c.text ++ (crlf ++ rest)) in
    let a = take_body-Arrived r dst keep c.text (crlf ++ rest) s (omega arith) in
    let b = take_body r' dst keep n in
    let line = read_line-line r (size_line n c.extension) (c.text ++ (crlf ++ rest)) w.line in
    let read = Steps.chunk_round_line _ status dst keep total line in
    let sized' = chunk_size-size_line n c.extension (omega arith) in
    (
      b.dst,
      rw (chunk_apart c rest) (
          read
          ∙ rw sized' (
              sized_pos r' status dst keep total n (length-ne-zero c.text w.not_empty)
              ∙ read_chunk-Arrived r' status dst keep total n rest small refl a.no_error a.reader_is
                  (omega (arith, w.line.fits)))),
      a.shows,
      a.is_slice,
      kept_len keep (omega (arith, a.len_is)),
    )
  where
    kept_len :
        (keep : Bool)
        → (take_body (holding r (c.text ++ (crlf ++ rest))) dst keep (length c.text)).dst.len
          ≤ dst.len + length (if keep then c.text else [])
        → (take_body (holding r (c.text ++ (crlf ++ rest))) dst keep (length c.text)).dst.len
          ≤ total + length c.text
    kept_len true h = omega arith
    kept_len false h = omega arith
