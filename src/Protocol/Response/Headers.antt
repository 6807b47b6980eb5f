-- ===== src/Protocol/Response/Headers.antt =====
-- The loop over the header lines ends by itself, and takes bytes off the reader.
use go_http_benchmark.Prelude.{
  ℕ, zero, suc, ◌≤◌, ◌<◌, ◌≡◌, ◌≢◌, inl, inr, ◌∙◌, Bool, false, none, some, Option, arith, length,
  Bytes, [], ◌∷◌, ℤ, pos, negsuc,
}
use go_http_benchmark.Golib.Reader.{Reader, ok, fail, Outcome, Outcome-cases}
use go_http_benchmark.Golib.Strconv.{atoi}
use go_http_benchmark.Golib.Text.{index_byte}
use go_http_benchmark.Golib.Slice.{Slice}
use go_http_benchmark.Protocol.Ascii.{parse_status}
use go_http_benchmark.Protocol.Errors.{Error, out_of_fuel, panic}
use go_http_benchmark.Protocol.Framing.{read_line}
use go_http_benchmark.Protocol.Framing.Progress.{read_line-lt, read_line_fuel}
use go_http_benchmark.Protocol.Chunked.Fuel.{take_body-le, read_chunked_fuel}
use go_http_benchmark.Protocol.Response.{
  Framing, no_framing, refused_line, named, split_at, header_line, with_length, read_headers,
  read_framed, read_reply, behind_line, behind_status, behind_headers, sized_body,
}
use go_http_benchmark.Protocol.Response.Panics.{Header-cases, read_reply_panic}

pub read_headers-le :
    (fuel : ℕ) (r : Reader) (f : Framing) {g : Framing} {r' : Reader}
    → read_headers fuel r f ≡ ok g r'
    → length r'.unread ≤ length r.unread
unfolding read_headers
read_headers-le zero r f h = cc
read_headers-le (suc fuel) r f {g} {r'} h = elim (Outcome-cases (read_line r)) [
  | inl ([], s, e) ↦ ground (arith, e, read_line-lt r e)
  | inl (c ∷ t, s, e) ↦ elim (Header-cases (header_line f (c ∷ t))) [
    | inl (f', eo) ↦
        ground (arith, e, eo, read_line-lt r e, read_headers-le fuel s f' {g = g} {r' = r'})
    | inr (x, eo) ↦ ground (arith, e, eo)
  ]
  | inr (x, s, e) ↦ ground (arith, e)
]

with_length_fuel : (f : Framing) (o : Option ℤ) → with_length f o ≢ refused_line out_of_fuel
with_length_fuel f none = cc
with_length_fuel f (some (pos n)) = cc
with_length_fuel f (some (negsuc n)) = cc

named_fuel : (f : Framing) (name value : Bytes) → named f name value ≢ refused_line out_of_fuel
unfolding named
named_fuel f name value = ground (arith, with_length_fuel f (atoi value))

header_line_fuel : (f : Framing) (line : Bytes) → header_line f line ≢ refused_line out_of_fuel
unfolding header_line
header_line_fuel f line = go (index_byte line b':')
  where
    go : (o : Option ℕ) → split_at f line o ≢ refused_line out_of_fuel
    go none = cc
    go (some zero) = cc
    go (some (suc i)) = named_fuel f _ _

read_headers_fuel :
    (fuel : ℕ) (r r' : Reader) (f : Framing)
    → length r.unread < fuel
    → read_headers fuel r f ≢ fail out_of_fuel r'
unfolding read_headers
read_headers_fuel zero r r' f h = elim h [ ]
read_headers_fuel (suc fuel) r r' f h = elim (Outcome-cases (read_line r)) [
  | inl ([], s, e) ↦ ground (arith, e)
  | inl (c ∷ t, s, e) ↦ elim (Header-cases (header_line f (c ∷ t))) [
    | inl (f', eo) ↦ ground (arith, e, eo, read_line-lt r e, read_headers_fuel fuel s r' f')
    | inr (x, eo) ↦ ground (arith, e, eo, header_line_fuel f (c ∷ t))
  ]
  | inr (x, s, e) ↦ ground (arith, e, read_line_fuel r s)
]

sized_body_fuel :
    (r : Reader) (status : ℕ) (dst : Slice) (keep : Bool) (n : ℤ)
    → (sized_body r status dst keep n).error ≢ some out_of_fuel
sized_body_fuel r status dst keep (negsuc k) = cc
sized_body_fuel r status dst keep (pos n) = ground (arith, take_body-le r dst keep n)

read_framed_fuel :
    (r : Reader) (status : ℕ) (dst : Slice) (keep : Bool) (f : Framing)
    → (read_framed r status dst keep f).error ≢ some out_of_fuel
unfolding read_framed
read_framed_fuel r status dst keep f =
    ground (
      arith,
      read_chunked_fuel r status dst keep,
      sized_body_fuel r status dst keep f.content_length,
    )

behind_headers_fuel :
    (status : ℕ) (dst : Slice) (keep : Bool) (o : Outcome Error Framing)
    → ((r : Reader) → o ≢ fail out_of_fuel r)
    → (behind_headers status dst keep o).error ≢ some out_of_fuel
behind_headers_fuel status dst keep (ok f r) h = read_framed_fuel r status dst keep f
behind_headers_fuel status dst keep (fail e r) h = λ q. h r (cc)

loops_end :
    (r : Reader) (dst : Slice) (keep : Bool) → (read_reply r dst keep).error ≢ some out_of_fuel
unfolding read_reply
loops_end r dst keep = elim (Outcome-cases (read_line r)) [
  | inl (line, s, e) ↦ rw (e, behind_line) (go s (parse_status line))
  | inr (x, s, e) ↦ rw (e, behind_line) (λ q. read_line_fuel r s (e ∙ cc))
]
  where
    go : (s : Reader) (o : Option ℕ) → (behind_status dst keep s o).error ≢ some out_of_fuel
    go s none = cc
    go s (some status) =
        behind_headers_fuel status dst keep (read_headers (suc (length s.unread)) s no_framing)
          (λ t. read_headers_fuel (suc (length s.unread)) s t no_framing (omega arith))

-- The loops of readResponse end by themselves: on every connection, whatever it delivers, those over
-- the header lines, the chunks and the trailer reach their end before the model's fuel does, the body
-- kept or dropped, so that readResponse returns a reply or an error, or ends in a run-time panic. With
-- the body dropped, as DiscardResponse does it, there is no panic either.
pub read_reply_fuel :
    (r : Reader) (dst : Slice) (keep : Bool)
    → ((read_reply r dst keep).error ≢ some out_of_fuel)
      × ((read_reply r dst false).error ≢ some panic)
read_reply_fuel r dst keep = (loops_end r dst keep, read_reply_panic r dst)
