-- ===== src/BenchRate/Responses/Ends.antt =====
-- The reader of a connection ends.
use go_http_benchmark.Prelude.{
  sym, ap, refl, ◌∙◌, not, ◌&&◌, some, Bool-cases, ℕ, zero, suc, ◌<◌, ◌≤◌, ◌≡◌, Bool, true, false,
  none, Bytes, arith, length, Option-cases, inl, inr,
}
use go_http_benchmark.Golib.Reader.{Reader}
use go_http_benchmark.Golib.Slice.{Slice, nil, reset}
use go_http_benchmark.Protocol.Response.{read_response, discard_response}
use go_http_benchmark.Protocol.Errors.{
  Error, is_panic, malformed_status, malformed_header, malformed_chunk, no_length, body_too_large,
  bad_content_length, io, panic, out_of_fuel,
}
use go_http_benchmark.Protocol.Response.Panics.{read_reply_panic}
use go_http_benchmark.Protocol.Response.Progress.{read_reply-lt}
use go_http_benchmark.BenchRate.Responses.{
  Counts, read_one, responses_from, read_responses, next_body, after_reply,
}
use go_http_benchmark.BenchRate.Responses.Counted.{responses_from-next, responses_from-last}

read_one-lt :
    (check_valid : Bool) (r : Reader) (body : Slice)
    → (read_one check_valid r body).error ≡ none
    → length (read_one check_valid r body).reader.unread < length r.unread
unfolding read_response discard_response
read_one-lt true r body h = read_reply-lt r (reset body) true h
read_one-lt false r body h = read_reply-lt r nil false h

and_false : (b : Bool) → (b && false) ≡ false
and_false true = refl
and_false false = refl

is_panic-eq : (x : Error) → is_panic x ≡ true → x ≡ panic
is_panic-eq panic h = refl
is_panic-eq malformed_status h = cc
is_panic-eq malformed_header h = cc
is_panic-eq malformed_chunk h = cc
is_panic-eq no_length h = cc
is_panic-eq body_too_large h = cc
is_panic-eq bad_content_length h = cc
is_panic-eq (io e) h = cc
is_panic-eq out_of_fuel h = cc

-- A response that is dropped is read without a panic.
read_one_panic :
    (check_valid : Bool) (r : Reader) (body : Slice) (x : Error)
    → (read_one check_valid r body).error ≡ some x
    → (is_panic x && not check_valid) ≡ false
unfolding discard_response
read_one_panic true r body x h = and_false (is_panic x)
read_one_panic false r body x h = elim (Bool-cases (is_panic x)) [
  | inl t ↦ absurd (read_reply_panic r nil (h ∙ ap some (is_panic-eq x t)))
  | inr t ↦ rw t refl
]

-- The counts of valid responses and of their bytes lag behind the count of all.
abbrev pub IsCounted : Counts → Type 0
IsCounted k = (k.recv_times ≤ k.answered) × (k.answered ≡ k.recv_cnt)

module _ (check_valid : Bool) (wbuffer : Bytes) where
  responses_from-ends :
      (fuel : ℕ) (r : Reader) (body : Slice) (k : Counts)
      → length r.unread < fuel
      → IsCounted k
      → let e = responses_from check_valid wbuffer fuel r body k in
        (e.in_time ≡ true)
        × (e.broken ≡ not e.panicked)
        × ((e.panicked && not check_valid) ≡ false)
        × IsCounted e.counts
  responses_from-ends zero r body k h w = elim h [ ]
  responses_from-ends (suc fuel) r body k h w =
      let reply = read_one check_valid r body in
      elim (Option-cases reply.error) [
        | inl e ↦ rw (responses_from-next check_valid wbuffer fuel r body k e) (
            responses_from-ends fuel reply.reader (next_body check_valid body reply)
              (after_reply check_valid wbuffer body k reply)
              (omega (arith, read_one-lt check_valid r body e)) (ground arith))
        | inr (x, e) ↦
            let (c, b, p, t) = responses_from-last check_valid wbuffer fuel r body k x e in
            (
              t,
              b ∙ ap not (sym p),
              ap (λ q. q && not check_valid) p ∙ read_one_panic check_valid r body x e,
              rw c w,
            )
      ]

  -- Whatever a connection delivers, its reader ends: either a read returns an error, and then it
  -- marks the connection broken, or ReadResponse panics, which it does only where the bodies are
  -- compared, and then it does not. Where at the start as many responses were counted for the run as
  -- for the connection, and no more of them as valid, this is so at the end.
  pub read_responses_ends :
      (r : Reader) (k : Counts)
      → IsCounted k
      → let e = read_responses check_valid wbuffer r k in
        (e.in_time ≡ true)
        × (e.broken ≡ not e.panicked)
        × ((e.panicked && not check_valid) ≡ false)
        × IsCounted e.counts
  unfolding read_responses
  read_responses_ends r k w = responses_from-ends (suc (length r.unread)) r nil k (omega arith) w
