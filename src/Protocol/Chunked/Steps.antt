-- ===== src/Protocol/Chunked/Steps.antt =====
-- One step of each loop of `readChunked`, as equations.
use go_http_benchmark.Prelude.{
  ℕ, suc, ◌≡◌, ◌≢◌, ◌⊎◌, inl, inr, refl, Bool, none, some, [], ◌∷◌, Bytes,
}
use go_http_benchmark.Golib.Slice.{Slice}
use go_http_benchmark.Golib.Reader.{Reader, ok, fail}
use go_http_benchmark.Protocol.Errors.{Error}
use go_http_benchmark.Protocol.Framing.{Reply, read_line}
use go_http_benchmark.Protocol.Chunked.{
  chunk_size, Round, returned, again, give, read_trailer, sized, chunk_round, chunk_loop,
}

pub Round-cases :
    (o : Round)
    → ((reply : Reply) × (o ≡ returned reply))
      ⊎ ((dst : Slice) × (total : ℕ) × (r : Reader) × (o ≡ again dst total r))
Round-cases (returned reply) = inl (reply, refl)
Round-cases (again dst total r) = inr (dst, total, r, refl)

module _ (r : Reader) (status : ℕ) (dst : Slice) where
  pub chunk_round_line :
      (keep : Bool) (total : ℕ) {line : Bytes} {r' : Reader}
      → read_line r ≡ ok line r'
      → chunk_round r status dst keep total ≡ sized r' status dst keep total (chunk_size line)
  unfolding chunk_round
  chunk_round_line keep total e = rw (e, chunk_round)

  pub chunk_round_fail :
      (keep : Bool) (total : ℕ) {x : Error} {r' : Reader}
      → read_line r ≡ fail x r'
      → chunk_round r status dst keep total ≡ returned (give status dst total (some x) r')
  unfolding chunk_round
  chunk_round_fail keep total e = rw (e, chunk_round)

  pub chunk_loop_returned :
      (fuel : ℕ) (keep : Bool) (total : ℕ) {reply : Reply}
      → chunk_round r status dst keep total ≡ returned reply
      → chunk_loop (suc fuel) r status dst keep total ≡ reply
  unfolding chunk_loop
  chunk_loop_returned fuel keep total e = rw (e, chunk_loop)

  pub chunk_loop_again :
      (fuel : ℕ) (keep : Bool) (total : ℕ) {dst' : Slice} {total' : ℕ} {r' : Reader}
      → chunk_round r status dst keep total ≡ again dst' total' r'
      → chunk_loop (suc fuel) r status dst keep total ≡ chunk_loop fuel r' status dst' keep total'
  unfolding chunk_loop
  chunk_loop_again fuel keep total e = rw (e, chunk_loop)

  pub read_trailer_blank :
      (fuel total : ℕ) {r' : Reader}
      → read_line r ≡ ok [] r'
      → read_trailer (suc fuel) r status dst total ≡ give status dst total none r'
  unfolding read_trailer
  read_trailer_blank fuel total e = rw (e, read_trailer)

  pub read_trailer_line :
      (fuel total : ℕ) (line : Bytes) {r' : Reader}
      → read_line r ≡ ok line r'
      → line ≢ []
      → read_trailer (suc fuel) r status dst total ≡ read_trailer fuel r' status dst total
  unfolding read_trailer
  read_trailer_line fuel total [] e h = absurd (h refl)
  read_trailer_line fuel total (c ∷ s) e h = rw (e, read_trailer)

  pub read_trailer_fail :
      (fuel total : ℕ) {x : Error} {r' : Reader}
      → read_line r ≡ fail x r'
      → read_trailer (suc fuel) r status dst total ≡ give status dst total (some x) r'
  unfolding read_trailer
  read_trailer_fail fuel total e = rw (e, read_trailer)
