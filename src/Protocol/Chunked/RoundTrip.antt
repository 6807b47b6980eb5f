-- ===== src/Protocol/Chunked/RoundTrip.antt =====
-- A whole chunked body, read back.
use go_http_benchmark.Prelude.{
  ℕ, zero, suc, ◌+◌, ◌≤◌, ◌<◌, ◌≡◌, ◌≢◌, refl, sym, ◌∙◌, ap, Bool, true, false, none, List, [], ◌∷◌,
  ◌++◌, append_assoc, append-nil, arith, length, Bytes, All, if◌then◌else◌, length-append,
}
use go_http_benchmark.Golib.Slice.{Slice, view, IsSlice}
use go_http_benchmark.Golib.Strconv.{hex}
use go_http_benchmark.Golib.Reader.{Reader, holding}
use go_http_benchmark.Protocol.Framing.{Reply, max_body_size}
use go_http_benchmark.Protocol.Framing.Bodies.{Answered}
use go_http_benchmark.Protocol.Framing.Lines.{IsLine, crlf, read_line-line}
use go_http_benchmark.Protocol.Chunked.{
  give, returned, read_trailer, sized, chunk_round, chunk_loop, read_chunked,
}
use go_http_benchmark.Protocol.Chunked.Chunks.{
  Chunk, size_line, chunk_text, chunks_text, content, IsChunk, chunk_size-size_line,
  chunk_round-chunk_text,
}
use go_http_benchmark.Protocol.Chunked.Steps

-- The lines of a trailer, each ended.
abbrev pub lines_text : List Bytes → Bytes
lines_text [] = []
lines_text (t ∷ ts) = t ++ (crlf ++ lines_text ts)

-- A line of a trailer: not blank, and one that the reader can take.
abbrev pub IsTrailer : ℕ → Bytes → Type 0
IsTrailer size t = (t ≢ []) × IsLine size t

-- Trailer lines are passed over, up to the blank line that ends them.
read_trailer-lines_text :
    (ts : List Bytes) (fuel : ℕ) (r : Reader) (status : ℕ) (dst : Slice) (total : ℕ) (rest : Bytes)
    → All (IsTrailer r.size) ts
    → 2 ≤ r.size
    → length ts < fuel
    → read_trailer fuel (holding r (lines_text ts ++ (crlf ++ rest))) status dst total
      ≡ give status dst total none (holding r rest)
read_trailer-lines_text ts zero r status dst total rest h two lt = elim lt [ ]
read_trailer-lines_text [] (suc fuel) r status dst total rest h two lt =
    let blank = read_line-line r [] rest (record { no_newline = tt; fits = two }) in
    Steps.read_trailer_blank _ status dst fuel total blank
read_trailer-lines_text (t ∷ ts) (suc fuel) r status dst total rest ((ne, w), hs) two lt =
    let line = read_line-line r t (lines_text ts ++ (crlf ++ rest)) w in
    rw (append_assoc t (crlf ++ lines_text ts) (crlf ++ rest)) (
      Steps.read_trailer_line _ status dst fuel total t line ne
      ∙ read_trailer-lines_text ts fuel r status dst total rest hs two (omega arith))

-- The chunk of size 0 that ends the body, and the trailer.
abbrev pub last_text : List Bytes → Bytes
last_text ts = hex 0 ++ (crlf ++ (lines_text ts ++ crlf))

length-lines_text : (ts : List Bytes) → length ts ≤ length (lines_text ts)
length-lines_text [] = omega arith
length-lines_text (t ∷ ts) =
    omega (arith, length-append t (crlf ++ lines_text ts), length-lines_text ts)

last_apart :
    (ts : List Bytes) (rest : Bytes)
    → last_text ts ++ rest ≡ hex 0 ++ (crlf ++ (lines_text ts ++ (crlf ++ rest)))
last_apart ts rest =
    append_assoc (hex 0) (crlf ++ (lines_text ts ++ crlf)) rest
    ∙ ap (λ t. hex 0 ++ (crlf ++ t)) (append_assoc (lines_text ts) crlf rest)

chunk_round-last_text :
    (r : Reader) (status : ℕ) (dst : Slice) (keep : Bool) (total : ℕ) (ts : List Bytes)
    (rest : Bytes)
    → All (IsTrailer r.size) ts
    → 3 ≤ r.size
    → chunk_round (holding r (last_text ts ++ rest)) status dst keep total
      ≡ returned (give status dst total none (holding r rest))
chunk_round-last_text r status dst keep total ts rest h three =
    let behind = lines_text ts ++ (crlf ++ rest) in
    let line =
      read_line-line r (hex 0) behind
        (unfold hex in record { no_newline = omega arith; fits = three }) in
    let enough : length ts < suc (length behind) =
      omega (arith, length-append (lines_text ts) (crlf ++ rest), length-lines_text ts) in
    rw (last_apart ts rest) (
      Steps.chunk_round_line _ status dst keep total line
      ∙ rw (chunk_size-size_line 0 [] (omega arith), sized)
          (ap returned (
            read_trailer-lines_text ts (suc (length behind)) r status dst total rest h (omega arith)
              enough)))

-- What the loop returns when it starts with `total` bytes read and `s` to come.
record Looped (dst : Slice) (keep : Bool) (status total : ℕ) (s : Bytes) (r : Reader) (a : Reply)
    : Type 0 where
  status_is : a.status ≡ status
  no_error : a.error ≡ none
  n_is : a.n ≡ total + length s
  shows : view a.body ≡ view dst ++ (if keep then s else [])
  reader_is : a.reader ≡ r
  is_slice : IsSlice a.body

if_append :
    (keep : Bool) (s t : Bytes)
    → (if keep then s else []) ++ (if keep then t else []) ≡ (if keep then s ++ t else [])
if_append true s t = refl
if_append false s t = refl

if_nil : (keep : Bool) → ◌≡◌ {A = Bytes} (if keep then [] else []) []
if_nil true = refl
if_nil false = refl

Looped-cons :
    (dst dst' : Slice) (keep : Bool) (status total : ℕ) (s t : Bytes) (r : Reader) (a : Reply)
    → view dst' ≡ view dst ++ (if keep then s else [])
    → Looped dst' keep status (total + length s) t r a
    → Looped dst keep status total (s ++ t) r a
Looped-cons dst dst' keep status total s t r a e h = record {
  status_is = h.status_is;
  no_error = h.no_error;
  n_is = omega (arith, h.n_is, length-append s t);
  shows = h.shows ∙ rw e (append_assoc (view dst) _ _ ∙ rw (if_append keep s t));
  reader_is = h.reader_is;
  is_slice = h.is_slice;
}

chunk_loop-chunks_text :
    (cs : List Chunk) (ts : List Bytes) (fuel : ℕ) (r : Reader) (status : ℕ) (dst : Slice)
    (keep : Bool) (total : ℕ) (rest : Bytes)
    → All (IsChunk r.size) cs
    → All (IsTrailer r.size) ts
    → 3 ≤ r.size
    → IsSlice dst
    → dst.len ≤ total
    → total + length (content cs) ≤ max_body_size
    → length cs < fuel
    → Looped dst keep status total (content cs) (holding r rest) (
        chunk_loop fuel
          (holding r (chunks_text cs ++ (last_text ts ++ rest)))
          status
          dst
          keep
          total)
chunk_loop-chunks_text cs ts zero r status dst keep total rest hc ht three s len small lt =
    elim lt [ ]
chunk_loop-chunks_text [] ts (suc fuel) r status dst keep total rest hc ht three s len small lt =
    let e = chunk_round-last_text r status dst keep total ts rest ht three in
    rw (Steps.chunk_loop_returned _ status dst fuel keep total e) (record {
      status_is = refl;
      no_error = refl;
      n_is = omega arith;
      shows = sym (rw (if_nil keep) (append-nil (view dst)));
      reader_is = refl;
      is_slice = s;
    })
chunk_loop-chunks_text (c ∷ cs) ts (suc fuel) r status dst keep total rest (hc, hcs) ht three s len
      small lt =
    let behind = chunks_text cs ++ (last_text ts ++ rest) in
    let sum = length-append c.text (content cs) in
    let (dst', e, shown, s', len') =
      chunk_round-chunk_text r status dst keep total c behind hc s len (omega arith) in
    rw (append_assoc (chunk_text c) (chunks_text cs) (last_text ts ++ rest)) (
      rw (Steps.chunk_loop_again _ status dst fuel keep total e) (
        Looped-cons dst dst' keep status total c.text (content cs) _ _ shown (
          chunk_loop-chunks_text cs ts fuel r status dst' keep (total + length c.text) rest hcs ht
            three s' len' (omega arith) (omega arith))))

length-chunks_text : (cs : List Chunk) → length cs ≤ length (chunks_text cs)
length-chunks_text [] = omega arith
length-chunks_text (c ∷ cs) =
    let line = size_line (length c.text) c.extension in
    omega (
      arith,
      length-append (chunk_text c) (chunks_text cs),
      length-chunks_text cs,
      length-append line (crlf ++ (c.text ++ crlf)),
    )

-- A body sent in chunks - each with any extension behind its size, then the chunk of size 0 and
-- any trailer lines - is read by readChunked with no error as the chunks' bytes joined, kept
-- behind what the buffer showed or dropped; its length is reported, and the reader stands behind
-- the trailer. The lines fit the reader's buffer, and the body is at most MaxBodySize.
pub read_chunked-chunks_text :
    (cs : List Chunk) (ts : List Bytes) (r : Reader) (status : ℕ) (dst : Slice) (keep : Bool)
    (rest : Bytes)
    → All (IsChunk r.size) cs
    → All (IsTrailer r.size) ts
    → 3 ≤ r.size
    → dst.len ≡ 0
    → length (content cs) ≤ max_body_size
    → Answered dst keep status
        (content cs)
        (holding r rest)
        (read_chunked (holding r (chunks_text cs ++ (last_text ts ++ rest))) status dst keep)
unfolding read_chunked
read_chunked-chunks_text cs ts r status dst keep rest hc ht three len small =
    let a =
      chunk_loop-chunks_text cs ts (suc (length (chunks_text cs ++ (last_text ts ++ rest)))) r
        status dst keep 0 rest hc ht three (omega arith) (omega arith) (omega arith)
        (omega
          (arith, length-append (chunks_text cs) (last_text ts ++ rest), length-chunks_text cs)) in
    record {
      status_is = a.status_is;
      no_error = a.no_error;
      n_is = a.n_is ∙ omega arith;
      shows = a.shows;
      reader_is = a.reader_is;
      is_slice = a.is_slice;
    }
