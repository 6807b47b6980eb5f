-- ===== src/Protocol/Response/Progress.antt =====
-- A response that was read took bytes off the reader.
use go_http_benchmark.Prelude.{
  ℕ, suc, ◌≤◌, ◌<◌, ◌≡◌, inl, inr, refl, Bool, none, some, Option, arith, length, ℤ, pos, negsuc,
}
use go_http_benchmark.Golib.Reader.{Reader, ok, fail, Outcome, Outcome-cases}
use go_http_benchmark.Golib.Slice.{Slice}
use go_http_benchmark.Protocol.Ascii.{parse_status}
use go_http_benchmark.Protocol.Chunked.Fuel.{take_body-le}
use go_http_benchmark.Protocol.Chunked.Progress.{Within, read_chunked-Within}
use go_http_benchmark.Protocol.Errors.{Error}
use go_http_benchmark.Protocol.Framing.{read_line}
use go_http_benchmark.Protocol.Framing.Progress.{read_line-lt}
use go_http_benchmark.Protocol.Response.{
  Framing, no_framing, read_headers, read_framed, read_reply, behind_line, behind_status,
  behind_headers, sized_body,
}
use go_http_benchmark.Protocol.Response.Headers.{read_headers-le}

read_framed-Within :
    (r : Reader) (status : ℕ) (dst : Slice) (keep : Bool) (f : Framing)
    → Within (length r.unread) (read_framed r status dst keep f)
unfolding read_framed
read_framed-Within r status dst keep f =
    ground (arith, read_chunked-Within r status dst keep, sized-Within f.content_length)
  where
    sized-Within : (n : ℤ) → Within (length r.unread) (sized_body r status dst keep n)
    sized-Within (negsuc k) = cc
    sized-Within (pos n) = ground (arith, (take_body-le r dst keep n).0)

-- Each response that is read without an error takes a byte at least off the connection.
pub read_reply-lt :
    (r : Reader) (dst : Slice) (keep : Bool)
    → (read_reply r dst keep).error ≡ none
    → length (read_reply r dst keep).reader.unread < length r.unread
unfolding read_reply
read_reply-lt r dst keep = elim (Outcome-cases (read_line r)) [
  | inl (line, s, e) ↦ rw (e, behind_line) (go s (read_line-lt r e) (parse_status line))
  | inr (x, s, e) ↦ rw (e, behind_line) cc
]
  where
    framed :
        (s : Reader) (status : ℕ) (o : Outcome Error Framing)
        → ((f : Framing) (t : Reader) → o ≡ ok f t → length t.unread ≤ length s.unread)
        → Within (length s.unread) (behind_headers status dst keep o)
    framed s status (ok f t) h =
        λ q. omega (arith, h f t refl, read_framed-Within t status dst keep f q)
    framed s status (fail e t) h = cc

    go :
        (s : Reader)
        → length s.unread < length r.unread
        → (o : Option ℕ) → (behind_status dst keep s o).error ≡ none
        → length (behind_status dst keep s o).reader.unread < length r.unread
    go s l none = cc
    go s l (some status) = λ q. omega (
      arith,
      l,
      framed s status (read_headers (suc (length s.unread)) s no_framing)
          (λ f t e. read_headers-le (suc (length s.unread)) s no_framing e) q,
    )
