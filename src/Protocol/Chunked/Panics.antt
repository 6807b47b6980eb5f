-- ===== src/Protocol/Chunked/Panics.antt =====
-- `readChunked` with the body dropped grows no buffer, and so does not panic.
use go_http_benchmark.Prelude.{
  ℕ, zero, suc, ◌≢◌, ◌∙◌, false, Option, none, some, [], ◌∷◌, arith, length, inl, inr, Bool-cases,
}
use go_http_benchmark.Golib.Slice.{Slice}
use go_http_benchmark.Golib.Reader.{Reader, Outcome-cases, discard}
use go_http_benchmark.Protocol.Errors.{Error, panic}
use go_http_benchmark.Protocol.Framing.{read_line, Body, take_body}
use go_http_benchmark.Protocol.Framing.Progress.{read_line_panic}
use go_http_benchmark.Protocol.Chunked.Steps.{
  Round-cases, chunk_round_line, chunk_round_fail, chunk_loop_returned, chunk_loop_again,
}
use go_http_benchmark.Protocol.Chunked.{
  chunk_size, too_large, Round, returned, again, chunk_end, chunk_taken, read_chunk, read_trailer,
  sized, chunk_round, chunk_loop, read_chunked,
}

pub take_body_panic :
    (r : Reader) (dst : Slice) (n : ℕ) → (take_body r dst false n).error ≢ some panic
unfolding take_body discard
take_body_panic r dst n = ground arith

read_trailer_panic :
    (fuel : ℕ) (r : Reader) (status : ℕ) (dst : Slice) (total : ℕ)
    → (read_trailer fuel r status dst total).error ≢ some panic
unfolding read_trailer
read_trailer_panic zero r status dst total = cc
read_trailer_panic (suc fuel) r status dst total = elim (Outcome-cases (read_line r)) [
  | inl (line, r', e) ↦ ground (arith, e, read_trailer_panic fuel r' status dst total)
  | inr (x, r', e) ↦ ground (arith, e, read_line_panic r r')
]

-- A round that returns does not panic.
abbrev Calm : Round → Type 0
Calm (returned reply) = reply.error ≢ some panic
Calm (again dst total r) = Unit

chunk_end-Calm :
    (r : Reader) (status : ℕ) (dst : Slice) (total : ℕ)
    → Calm (chunk_end status dst total (read_line r))
chunk_end-Calm r status dst total = elim (Outcome-cases (read_line r)) [
  | inl ([], r', e) ↦ rw (e, chunk_end) tt
  | inl (c ∷ s, r', e) ↦ rw (e, chunk_end) cc
  | inr (x, r', e) ↦ rw (e, chunk_end) (λ q. read_line_panic r r' (e ∙ cc))
]

chunk_taken-Calm :
    (status total size : ℕ) (b : Body)
    → b.error ≢ some panic
    → Calm (chunk_taken status total size b.dst b.error b.reader)
chunk_taken-Calm status total size b ne = go b.error ne
  where
    go : (o : Option Error) → o ≢ some panic → Calm (chunk_taken status total size b.dst o b.reader)
    go none ne = chunk_end-Calm b.reader status b.dst _
    go (some e) ne = ne

read_chunk-Calm :
    (r : Reader) (status : ℕ) (dst : Slice) (total size : ℕ)
    → Calm (read_chunk r status dst false total size)
unfolding read_chunk
read_chunk-Calm r status dst total size = elim (Bool-cases (too_large total size)) [
  | inl e ↦ rw e cc
  | inr e ↦
      rw e (
        chunk_taken-Calm status total size (take_body r dst false size)
          (take_body_panic r dst size))
]

sized-Calm :
    (r : Reader) (status : ℕ) (dst : Slice) (total : ℕ) (o : Option ℕ)
    → Calm (sized r status dst false total o)
sized-Calm r status dst total none = cc
sized-Calm r status dst total (some zero) =
    read_trailer_panic (suc (length r.unread)) r status dst total
sized-Calm r status dst total (some (suc k)) = read_chunk-Calm r status dst total (suc k)

chunk_round-Calm :
    (r : Reader) (status : ℕ) (dst : Slice) (total : ℕ)
    → Calm (chunk_round r status dst false total)
chunk_round-Calm r status dst total = elim (Outcome-cases (read_line r)) [
  | inl (line, r', e) ↦
      rw (chunk_round_line r status dst false total e)
        (sized-Calm r' status dst total (chunk_size line))
  | inr (x, r', e) ↦
      rw (chunk_round_fail r status dst false total e) (λ q. read_line_panic r r' (e ∙ cc))
]

chunk_loop_panic :
    (fuel : ℕ) (r : Reader) (status : ℕ) (dst : Slice) (total : ℕ)
    → (chunk_loop fuel r status dst false total).error ≢ some panic
chunk_loop_panic zero r status dst total = unfold chunk_loop in cc
chunk_loop_panic (suc fuel) r status dst total =
    let calm = chunk_round-Calm r status dst total in
    elim (Round-cases (chunk_round r status dst false total)) [
      | inl (reply, e) ↦ rw (chunk_loop_returned r status dst fuel false total e) (rw e at calm)
      | inr (dst', total', r', e) ↦
          rw (chunk_loop_again r status dst fuel false total e)
            (chunk_loop_panic fuel r' status dst' total')
    ]

pub read_chunked_panic :
    (r : Reader) (status : ℕ) (dst : Slice) → (read_chunked r status dst false).error ≢ some panic
unfolding read_chunked
read_chunked_panic r status dst = chunk_loop_panic (suc (length r.unread)) r status dst 0
