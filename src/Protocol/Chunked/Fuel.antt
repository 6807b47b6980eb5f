-- ===== src/Protocol/Chunked/Fuel.antt =====
-- The loops of `readChunked` end by themselves: every round reads a line.
use go_http_benchmark.Prelude.{
  ℕ, zero, suc, ◌≤◌, ◌<◌, ◌≢◌, ◌∙◌, Bool, true, false, Option, none, some, [], ◌∷◌, arith, length,
  length-drop, inl, inr, Bool-cases,
}
use go_http_benchmark.Golib.Slice.{Slice}
use go_http_benchmark.Golib.Reader.{Reader, Outcome-cases, read_full, discard}
use go_http_benchmark.Protocol.Errors.{Error, out_of_fuel}
use go_http_benchmark.Protocol.Framing.{read_line, Body, take_body}
use go_http_benchmark.Protocol.Framing.Progress.{read_line-lt, read_line_fuel}
use go_http_benchmark.Protocol.Chunked.Steps.{
  Round-cases, chunk_round_line, chunk_round_fail, chunk_loop_returned, chunk_loop_again,
}
use go_http_benchmark.Protocol.Chunked.{
  chunk_size, too_large, Round, returned, again, chunk_end, chunk_taken, read_chunk, read_trailer,
  sized, chunk_round, chunk_loop, read_chunked,
}

-- A body's bytes are taken off the reader without fuel, and nothing is put back.
pub take_body-le :
    (r : Reader) (dst : Slice) (keep : Bool) (n : ℕ)
    → (length (take_body r dst keep n).reader.unread ≤ length r.unread)
      × ((take_body r dst keep n).error ≢ some out_of_fuel)
unfolding take_body read_full discard
take_body-le r dst true n = ground (arith, length-drop n r.unread)
take_body-le r dst false n = ground (arith, length-drop n r.unread)

read_trailer_fuel :
    (fuel : ℕ) (r : Reader) (status : ℕ) (dst : Slice) (total : ℕ)
    → length r.unread < fuel
    → (read_trailer fuel r status dst total).error ≢ some out_of_fuel
unfolding read_trailer
read_trailer_fuel zero r status dst total h = elim h [ ]
read_trailer_fuel (suc fuel) r status dst total h = elim (Outcome-cases (read_line r)) [
  | inl (line, r', e) ↦
      ground (arith, e, read_line-lt r e, read_trailer_fuel fuel r' status dst total)
  | inr (x, r', e) ↦ ground (arith, e, read_line_fuel r r')
]

-- What a round leaves for the next one.
abbrev pub Leaves : ℕ → Round → Type 0
Leaves n (returned reply) = reply.error ≢ some out_of_fuel
Leaves n (again dst total r) = length r.unread < n

chunk_end-Leaves :
    (r : Reader) (status : ℕ) (dst : Slice) (total : ℕ) (n : ℕ)
    → length r.unread < n
    → Leaves n (chunk_end status dst total (read_line r))
chunk_end-Leaves r status dst total n h = elim (Outcome-cases (read_line r)) [
  | inl ([], r', e) ↦ rw (e, chunk_end) (omega (arith, read_line-lt r e))
  | inl (c ∷ s, r', e) ↦ rw (e, chunk_end) cc
  | inr (x, r', e) ↦ rw (e, chunk_end) (λ q. read_line_fuel r r' (e ∙ cc))
]

chunk_taken-Leaves :
    (status total size : ℕ) (b : Body) (n : ℕ)
    → length b.reader.unread < n
    → b.error ≢ some out_of_fuel
    → Leaves n (chunk_taken status total size b.dst b.error b.reader)
chunk_taken-Leaves status total size b n h ne = go b.error ne
  where
    go :
        (o : Option Error)
        → o ≢ some out_of_fuel
        → Leaves n (chunk_taken status total size b.dst o b.reader)
    go none ne = chunk_end-Leaves b.reader status b.dst _ n h
    go (some e) ne = ne

read_chunk-Leaves :
    (r : Reader) (status : ℕ) (dst : Slice) (keep : Bool) (total size : ℕ) (n : ℕ)
    → length r.unread < n
    → Leaves n (read_chunk r status dst keep total size)
unfolding read_chunk
read_chunk-Leaves r status dst keep total size n h = elim (Bool-cases (too_large total size)) [
  | inl e ↦ rw e cc
  | inr e ↦
      let (le, ne) = take_body-le r dst keep size in
      rw e (chunk_taken-Leaves status total size (take_body r dst keep size) n (omega arith) ne)
]

sized-Leaves :
    (r : Reader) (status : ℕ) (dst : Slice) (keep : Bool) (total : ℕ) (o : Option ℕ) (n : ℕ)
    → length r.unread < n
    → Leaves n (sized r status dst keep total o)
sized-Leaves r status dst keep total none n h = cc
sized-Leaves r status dst keep total (some zero) n h =
    read_trailer_fuel (suc (length r.unread)) r status dst total (omega arith)
sized-Leaves r status dst keep total (some (suc k)) n h =
    read_chunk-Leaves r status dst keep total (suc k) n h

pub chunk_round-Leaves :
    (r : Reader) (status : ℕ) (dst : Slice) (keep : Bool) (total : ℕ)
    → Leaves (length r.unread) (chunk_round r status dst keep total)
chunk_round-Leaves r status dst keep total = elim (Outcome-cases (read_line r)) [
  | inl (line, r', e) ↦
      rw (chunk_round_line r status dst keep total e)
        (sized-Leaves r' status dst keep total (chunk_size line) _ (read_line-lt r e))
  | inr (x, r', e) ↦
      rw (chunk_round_fail r status dst keep total e) (λ q. read_line_fuel r r' (e ∙ cc))
]

chunk_loop_fuel :
    (fuel : ℕ) (r : Reader) (status : ℕ) (dst : Slice) (keep : Bool) (total : ℕ)
    → length r.unread < fuel
    → (chunk_loop fuel r status dst keep total).error ≢ some out_of_fuel
chunk_loop_fuel zero r status dst keep total h = elim h [ ]
chunk_loop_fuel (suc fuel) r status dst keep total h =
    let left = chunk_round-Leaves r status dst keep total in
    elim (Round-cases (chunk_round r status dst keep total)) [
      | inl (reply, e) ↦ rw (chunk_loop_returned r status dst fuel keep total e) (rw e at left)
      | inr (dst', total', r', e) ↦
          rw (chunk_loop_again r status dst fuel keep total e)
            (chunk_loop_fuel fuel r' status dst' keep total' (omega (arith, rw e at left)))
    ]

-- `readChunked` always returns.
pub read_chunked_fuel :
    (r : Reader) (status : ℕ) (dst : Slice) (keep : Bool)
    → (read_chunked r status dst keep).error ≢ some out_of_fuel
unfolding read_chunked
read_chunked_fuel r status dst keep =
    chunk_loop_fuel (suc (length r.unread)) r status dst keep 0 (omega arith)
