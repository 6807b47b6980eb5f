-- ===== src/BenchRate/Responses/Counted.antt =====
-- The responses that are counted.
use go_http_benchmark.Prelude.{
  ℕ, zero, suc, ◌+◌, ◌*◌, ◌<◌, ◌≡◌, refl, ap, ◌∙◌, Bool, true, false, not, Option, none, some,
  Bytes, List, [], ◌∷◌, ◌++◌, append_assoc, equal_refl, arith, All, length, length-take,
}
use go_http_benchmark.Golib.Reader.{Reader, holding}
use go_http_benchmark.Golib.Slice.{Slice, view, IsSlice, nil, reset}
use go_http_benchmark.Protocol.Errors.{Error, is_panic}
use go_http_benchmark.Protocol.Framing.{Reply}
use go_http_benchmark.Protocol.Response.{read_response, discard_response, read_reply}
use go_http_benchmark.Protocol.Response.Answer.{
  Answer, IsAnswer, answer_text, read_reply-answer_text,
}
use go_http_benchmark.BenchRate.Responses.{
  Counts, read_one, valid_status, counted_bytes, next_body, after_reply, responses_from,
}

-- Echo responses: status 200, and the body that was sent.
abbrev pub IsEcho : ℕ → Bytes → Answer → Type 0
IsEcho size wbuffer a = IsAnswer size 200 a × (a.body ≡ wbuffer)

abbrev pub answers_text : List Answer → Bytes
answers_text [] = []
answers_text (a ∷ as') = answer_text a ++ answers_text as'

-- `m` valid responses with bodies of `size` bytes were counted between `k` and `c`.
abbrev pub Echoes : ℕ → ℕ → Counts → Counts → Type 0
Echoes m size k c =
    (c.recv_cnt ≡ k.recv_cnt + m)
    × (c.answered ≡ k.answered + m)
    × (c.recv_times ≡ k.recv_times + m)
    × (c.recv_bytes ≡ k.recv_bytes + m * size)

module _ (check_valid : Bool) (wbuffer : Bytes) where
  pub responses_from-next :
      (fuel : ℕ) (r : Reader) (body : Slice) (k : Counts)
      → (read_one check_valid r body).error ≡ none
      → let reply = read_one check_valid r body in
        responses_from check_valid wbuffer (suc fuel) r body k
        ≡ responses_from check_valid wbuffer fuel reply.reader
            (next_body check_valid body reply)
            (after_reply check_valid wbuffer body k reply)
  unfolding responses_from
  responses_from-next fuel r body k h = rw (h, responses_from) refl

  pub responses_from-last :
      (fuel : ℕ) (r : Reader) (body : Slice) (k : Counts) (x : Error)
      → (read_one check_valid r body).error ≡ some x
      → let e = responses_from check_valid wbuffer (suc fuel) r body k in
        (e.counts ≡ k)
        × (e.broken ≡ not (is_panic x))
        × (e.panicked ≡ is_panic x)
        × (e.in_time ≡ true)
  unfolding responses_from
  responses_from-last fuel r body k x e = rw (e, responses_from) (refl, refl, refl, refl)

-- The read returned an error, and did not panic.
abbrev pub IsReturned : Option Error → Type 0
IsReturned none = ⊥
IsReturned (some e) = is_panic e ≡ false

IsReturned-some :
    (o : Option Error) → IsReturned o → (e : Error) × (o ≡ some e) × (is_panic e ≡ false)
IsReturned-some none h = absurd h
IsReturned-some (some e) h = (e, refl, h)

-- An echo response as the loop reads it.
record Echoed (check_valid : Bool) (wbuffer : Bytes) (r : Reader) (reply : Reply) : Type 0 where
  no_error : reply.error ≡ none
  reader_is : reply.reader ≡ r
  status_is : valid_status check_valid wbuffer reply ≡ 200
  bytes_are : counted_bytes check_valid reply ≡ length wbuffer

len_view : (b : Slice) → IsSlice b → b.len ≡ length (view b)
len_view b h = omega (arith, length-take b.len b.array)

read_one-Echoed :
    (check_valid : Bool) (wbuffer : Bytes) (r : Reader) (a : Answer) (rest : Bytes) (body : Slice)
    → IsEcho r.size wbuffer a
    → Echoed check_valid wbuffer
        (holding r rest)
        (read_one check_valid (holding r (answer_text a ++ rest)) body)
unfolding read_response discard_response
read_one-Echoed true wbuffer r a rest body (w, e) =
    let z = read_reply-answer_text r 200 a rest w (reset body) true (omega arith) (omega arith) in
    let reply = read_reply (holding r (answer_text a ++ rest)) (reset body) true in
    let seen : view reply.body ≡ wbuffer = z.shows ∙ e in
    record {
      no_error = z.no_error;
      reader_is = z.reader_is;
      status_is = rw (seen, equal_refl wbuffer) z.status_is;
      bytes_are = len_view reply.body z.is_slice ∙ ap length seen;
    }
read_one-Echoed false wbuffer r a rest body (w, e) =
    let z = read_reply-answer_text r 200 a rest w nil false (omega arith) (omega arith) in
    record {
      no_error = z.no_error;
      reader_is = z.reader_is;
      status_is = z.status_is;
      bytes_are = z.n_is ∙ ap length e;
    }

after_reply-Echoed :
    (check_valid : Bool) (wbuffer : Bytes) (r : Reader) (reply : Reply) (body : Slice) (k : Counts)
    → Echoed check_valid wbuffer r reply
    → Echoes 1 (length wbuffer) k (after_reply check_valid wbuffer body k reply)
after_reply-Echoed check_valid wbuffer r reply body k z =
    rw (z.status_is, z.bytes_are) (omega arith)

module _ (check_valid : Bool) (wbuffer : Bytes) (r : Reader) (rest : Bytes)
    (ends : (body : Slice) → IsReturned (read_one check_valid (holding r rest) body).error) where
  -- A connection on which echo responses arrive, one behind the other, and then something at which the
  -- read of a response returns an error: every one of them is counted, as a response, as a valid one,
  -- and with the bytes of its body, and the connection is marked broken, whether the bodies are
  -- compared or dropped.
  pub responses_from-answers_text :
      (as' : List Answer) (fuel : ℕ) (body : Slice) (k : Counts)
      → All (IsEcho r.size wbuffer) as'
      → length as' < fuel
      → let e =
          responses_from check_valid wbuffer fuel (holding r (answers_text as' ++ rest)) body k in
        Echoes (length as') (length wbuffer) k e.counts × (e.broken ≡ true) × (e.in_time ≡ true)
  responses_from-answers_text as' zero body k h l = elim l [ ]
  responses_from-answers_text [] (suc fuel) body k h l =
      let (x, e, calm) =
        IsReturned-some (read_one check_valid (holding r rest) body).error (ends body) in
      let (c, b, p, t) = responses_from-last check_valid wbuffer fuel (holding r rest) body k x e in
      (rw c (omega arith), b ∙ ap not calm, t)
  responses_from-answers_text (a ∷ as') (suc fuel) body k (ha, h) l =
      let here = holding r (answer_text a ++ (answers_text as' ++ rest)) in
      let z = read_one-Echoed check_valid wbuffer r a (answers_text as' ++ rest) body ha in
      let reply = read_one check_valid here body in
      let k' = after_reply check_valid wbuffer body k reply in
      let one = after_reply-Echoed check_valid wbuffer _ reply body k z in
      let (c, b, t) =
        responses_from-answers_text as' fuel (next_body check_valid body reply) k' h
          (omega arith) in
      rw (append_assoc (answer_text a) (answers_text as') rest) (
        rw (responses_from-next check_valid wbuffer fuel here body k z.no_error, z.reader_is)
          (omega (arith, c, one), b, t))
