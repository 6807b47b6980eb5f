-- ===== src/Protocol/Response/Agree.antt =====
-- `ReadResponse` and `DiscardResponse` on the same connection.
use go_http_benchmark.Prelude.{
  ℕ, suc, ◌≤◌, ◌<◌, ◌≡◌, ◌≢◌, inl, inr, refl, true, false, none, some, Option, arith, length,
  Bool-cases, ltb, ltb→le, ℤ, pos, negsuc, ◌||◌, ◌/◌, ◌==◌,
}
use go_http_benchmark.Golib.Slice.{Slice, reset, nil}
use go_http_benchmark.Golib.Reader.{Reader, ok, fail, Outcome, Outcome-cases}
use go_http_benchmark.Protocol.Ascii.{parse_status}
use go_http_benchmark.Protocol.Chunked.Agree.{Agree, stream_limit, read_chunked-Agree}
use go_http_benchmark.Protocol.Errors.{Error, panic}
use go_http_benchmark.Protocol.Framing.{read_line, take_body, max_body_size}
use go_http_benchmark.Protocol.Framing.Agree.{take_body-BodyAgree}
use go_http_benchmark.Protocol.Framing.Progress.{read_line-lt}
use go_http_benchmark.Protocol.Response.Headers.{read_headers-le}
use go_http_benchmark.Protocol.Response.Panics.{read_reply_panic}
use go_http_benchmark.Protocol.Response.{
  Framing, no_framing, read_headers, read_framed, read_reply, read_response, discard_response,
  behind_line, behind_status, behind_headers, sized_body, give,
}

sized_body-Agree :
    (r : Reader) (status : ℕ) (dst dst' : Slice) (n : ℕ)
    → dst.len ≡ 0
    → n ≤ max_body_size
    → Agree
        (let b = take_body r dst true n in give status b.dst n b.error b.reader)
        (let b = take_body r dst' false n in give status b.dst n b.error b.reader)
sized_body-Agree r status dst dst' n len small =
    elim (take_body-BodyAgree r dst dst' n (omega arith) (inl (omega arith))) [
      | inl (ke, de, re, le, s) ↦ inl (ke, de, refl, refl, re, omega arith, small, s)
      | inr (ke, de) ↦ inr (ke, de)
    ]

framed_length-Agree :
    (r : Reader) (status : ℕ) (dst dst' : Slice) (n : ℤ)
    → dst.len ≡ 0
    → Agree (sized_body r status dst true n) (sized_body r status dst' false n)
framed_length-Agree r status dst dst' (negsuc n) len = inr (cc, cc)
framed_length-Agree r status dst dst' (pos n) len = elim (Bool-cases (ltb max_body_size n)) [
  | inl e ↦ rw e (inr (cc, cc))
  | inr e ↦ rw e (sized_body-Agree r status dst dst' n len (ltb→le _ _ e))
]

read_framed-Agree :
    (r : Reader) (status : ℕ) (dst dst' : Slice) (f : Framing)
    → dst.len ≡ 0
    → length r.unread < stream_limit
    → Agree (read_framed r status dst true f) (read_framed r status dst' false f)
unfolding read_framed
read_framed-Agree r status dst dst' f len h =
    elim (Bool-cases (status / 100 == 1 || status == 204 || status == 304)) [
      | inl e ↦ rw e (inl (refl, refl, refl, refl, refl, len, omega arith, omega arith))
      | inr e ↦ rw e (elim (Bool-cases f.chunked) [
        | inl c ↦ rw c (read_chunked-Agree r status dst dst' len h)
        | inr c ↦ rw c (framed_length-Agree r status dst dst' f.content_length len)
      ])
    ]

module _ (dst dst' : Slice) (len : dst.len ≡ 0) where
  behind_headers-Agree :
      (status : ℕ) (o : Outcome Error Framing)
      → ((f : Framing) (r : Reader) → o ≡ ok f r → length r.unread < stream_limit)
      → Agree (behind_headers status dst true o) (behind_headers status dst' false o)
  behind_headers-Agree status (fail e r) h = inr (cc, cc)
  behind_headers-Agree status (ok f r) h = read_framed-Agree r status dst dst' f len (h f r refl)

  behind_status-Agree :
      (r : Reader) (o : Option ℕ)
      → length r.unread < stream_limit
      → Agree (behind_status dst true r o) (behind_status dst' false r o)
  behind_status-Agree r none h = inr (cc, cc)
  behind_status-Agree r (some status) h =
      behind_headers-Agree status (read_headers (suc (length r.unread)) r no_framing)
        (λ f r' e. omega (arith, read_headers-le _ r no_framing e))

  pub read_reply-Agree :
      (r : Reader)
      → length r.unread < stream_limit
      → Agree (read_reply r dst true) (read_reply r dst' false)
  unfolding read_reply
  read_reply-Agree r h = elim (Outcome-cases (read_line r)) [
    | inl (line, r', e) ↦
        rw (e, behind_line)
          (behind_status-Agree r' (parse_status line) (omega (arith, read_line-lt r e)))
    | inr (x, r', e) ↦ rw (e, behind_line) (inr (cc, cc))
  ]

-- On any connection with fewer than 2^62 bytes to come, ReadResponse into any buffer and
-- DiscardResponse fare alike: either both fail, or neither does. Where neither does, they return the
-- same status and body length, leave the reader at the same place, the body that ReadResponse keeps
-- has exactly that length, and it is at most MaxBodySize. DiscardResponse fails by returning an error,
-- and never panics; ReadResponse fails by returning an error, not always the same one, or by a
-- run-time panic.
pub read_response-discard_response :
    (r : Reader) (dst : Slice)
    → length r.unread < stream_limit
    → Agree (read_response r dst) (discard_response r) × ((discard_response r).error ≢ some panic)
unfolding read_response discard_response
read_response-discard_response r dst h =
    (read_reply-Agree (reset dst) nil refl r h, read_reply_panic r nil)
