-- ===== src/Protocol/Chunked/Progress.antt =====
-- A chunked body that was read whole put no byte back.
use go_http_benchmark.Prelude.{
  ℕ, zero, suc, ◌≤◌, ◌≡◌, inl, inr, Bool, none, some, Option, arith, length, [], ◌∷◌, Bool-cases,
}
use go_http_benchmark.Golib.Reader.{Reader, Outcome-cases}
use go_http_benchmark.Golib.Slice.{Slice}
use go_http_benchmark.Protocol.Chunked.Fuel.{take_body-le}
use go_http_benchmark.Protocol.Chunked.Steps.{
  Round-cases, chunk_round_line, chunk_round_fail, chunk_loop_returned, chunk_loop_again,
}
use go_http_benchmark.Protocol.Chunked.{
  chunk_size, too_large, Round, returned, again, chunk_end, chunk_taken, read_chunk, read_trailer,
  sized, chunk_round, chunk_loop, read_chunked,
}
use go_http_benchmark.Protocol.Errors.{Error}
use go_http_benchmark.Protocol.Framing.{read_line, take_body, Reply, Body}
use go_http_benchmark.Protocol.Framing.Progress.{read_line-lt}

-- A reply with no error leaves at most `n` bytes to come.
abbrev pub Within : ℕ → Reply → Type 0
Within n reply = reply.error ≡ none → length reply.reader.unread ≤ n

abbrev Comes : ℕ → Round → Type 0
Comes n (returned reply) = Within n reply
Comes n (again dst total r) = length r.unread ≤ n

read_trailer-Within :
    (fuel : ℕ) (r : Reader) (status : ℕ) (dst : Slice) (total : ℕ)
    → Within (length r.unread) (read_trailer fuel r status dst total)
unfolding read_trailer
read_trailer-Within zero r status dst total = cc
read_trailer-Within (suc fuel) r status dst total = elim (Outcome-cases (read_line r)) [
  | inl (line, r', e) ↦
      ground (arith, e, read_line-lt r e, read_trailer-Within fuel r' status dst total)
  | inr (x, r', e) ↦ ground (arith, e)
]

chunk_end-Comes :
    (r : Reader) (status : ℕ) (dst : Slice) (total : ℕ)
    → Comes (length r.unread) (chunk_end status dst total (read_line r))
chunk_end-Comes r status dst total = elim (Outcome-cases (read_line r)) [
  | inl ([], r', e) ↦ rw (e, chunk_end) (omega (arith, read_line-lt r e))
  | inl (c ∷ s, r', e) ↦ rw (e, chunk_end) cc
  | inr (x, r', e) ↦ rw (e, chunk_end) cc
]

Comes-mono : (o : Round) (m n : ℕ) → m ≤ n → Comes m o → Comes n o
Comes-mono (returned reply) m n h c = λ e. omega (arith, c e)
Comes-mono (again dst total r) m n h c = omega (arith, c)

chunk_taken-Comes :
    (status total size : ℕ) (b : Body) (n : ℕ)
    → length b.reader.unread ≤ n
    → Comes n (chunk_taken status total size b.dst b.error b.reader)
chunk_taken-Comes status total size b n h = go b.error
  where
    go : (o : Option Error) → Comes n (chunk_taken status total size b.dst o b.reader)
    go none = Comes-mono _ _ n h (chunk_end-Comes b.reader status b.dst _)
    go (some e) = cc

read_chunk-Comes :
    (r : Reader) (status : ℕ) (dst : Slice) (keep : Bool) (total size : ℕ)
    → Comes (length r.unread) (read_chunk r status dst keep total size)
unfolding read_chunk
read_chunk-Comes r status dst keep total size = elim (Bool-cases (too_large total size)) [
  | inl e ↦ rw e cc
  | inr e ↦
      let (le, ne) = take_body-le r dst keep size in
      rw e (chunk_taken-Comes status total size (take_body r dst keep size) _ le)
]

sized-Comes :
    (r : Reader) (status : ℕ) (dst : Slice) (keep : Bool) (total : ℕ) (o : Option ℕ)
    → Comes (length r.unread) (sized r status dst keep total o)
sized-Comes r status dst keep total none = cc
sized-Comes r status dst keep total (some zero) = read_trailer-Within _ r status dst total
sized-Comes r status dst keep total (some (suc k)) =
    read_chunk-Comes r status dst keep total (suc k)

chunk_round-Comes :
    (r : Reader) (status : ℕ) (dst : Slice) (keep : Bool) (total : ℕ)
    → Comes (length r.unread) (chunk_round r status dst keep total)
chunk_round-Comes r status dst keep total = elim (Outcome-cases (read_line r)) [
  | inl (line, r', e) ↦ rw (chunk_round_line r status dst keep total e) (
      Comes-mono _ _ _ (omega (arith, read_line-lt r e))
        (sized-Comes r' status dst keep total (chunk_size line)))
  | inr (x, r', e) ↦ rw (chunk_round_fail r status dst keep total e) cc
]

chunk_loop-Within :
    (fuel : ℕ) (r : Reader) (status : ℕ) (dst : Slice) (keep : Bool) (total : ℕ)
    → Within (length r.unread) (chunk_loop fuel r status dst keep total)
chunk_loop-Within zero r status dst keep total = unfold chunk_loop in cc
chunk_loop-Within (suc fuel) r status dst keep total =
    let left = chunk_round-Comes r status dst keep total in
    elim (Round-cases (chunk_round r status dst keep total)) [
      | inl (reply, e) ↦ rw (chunk_loop_returned r status dst fuel keep total e) (rw e at left)
      | inr (dst', total', r', e) ↦ rw (chunk_loop_again r status dst fuel keep total e) (λ q.
          let le = rw e at left in
          omega (arith, chunk_loop-Within fuel r' status dst' keep total' q, le))
    ]

pub read_chunked-Within :
    (r : Reader) (status : ℕ) (dst : Slice) (keep : Bool)
    → Within (length r.unread) (read_chunked r status dst keep)
unfolding read_chunked
read_chunked-Within r status dst keep =
    chunk_loop-Within (suc (length r.unread)) r status dst keep 0
