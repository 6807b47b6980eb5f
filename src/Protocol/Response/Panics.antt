-- ===== src/Protocol/Response/Panics.antt =====
-- With the body dropped, `readResponse` does not panic.
use go_http_benchmark.Prelude.{
  ℕ, zero, suc, ◌≡◌, ◌≢◌, ◌⊎◌, inl, inr, refl, false, ◌∙◌, none, some, Option, arith, length, Bytes,
  [], ◌∷◌, ℤ, pos, negsuc,
}
use go_http_benchmark.Golib.Reader.{Reader, ok, fail, Outcome, Outcome-cases}
use go_http_benchmark.Golib.Strconv.{atoi}
use go_http_benchmark.Golib.Text.{index_byte}
use go_http_benchmark.Golib.Slice.{Slice}
use go_http_benchmark.Protocol.Ascii.{parse_status}
use go_http_benchmark.Protocol.Errors.{Error, panic}
use go_http_benchmark.Protocol.Framing.{read_line}
use go_http_benchmark.Protocol.Framing.Progress.{read_line_panic}
use go_http_benchmark.Protocol.Chunked.Panics.{take_body_panic, read_chunked_panic}
use go_http_benchmark.Protocol.Response.{
  Framing, no_framing, Header, taken, refused_line, named, split_at, header_line, with_length,
  read_headers, read_framed, read_reply, behind_line, behind_status, behind_headers, sized_body,
}

pub Header-cases :
    (o : Header) → ((f : Framing) × (o ≡ taken f)) ⊎ ((e : Error) × (o ≡ refused_line e))
Header-cases (taken f) = inl (f, refl)
Header-cases (refused_line e) = inr (e, refl)

with_length_panic : (f : Framing) (o : Option ℤ) → with_length f o ≢ refused_line panic
with_length_panic f none = cc
with_length_panic f (some (pos n)) = cc
with_length_panic f (some (negsuc n)) = cc

named_panic : (f : Framing) (name value : Bytes) → named f name value ≢ refused_line panic
unfolding named
named_panic f name value = ground (arith, with_length_panic f (atoi value))

header_line_panic : (f : Framing) (line : Bytes) → header_line f line ≢ refused_line panic
unfolding header_line
header_line_panic f line = go (index_byte line b':')
  where
    go : (o : Option ℕ) → split_at f line o ≢ refused_line panic
    go none = cc
    go (some zero) = cc
    go (some (suc i)) = named_panic f _ _

read_headers_panic :
    (fuel : ℕ) (r r' : Reader) (f : Framing) → read_headers fuel r f ≢ fail panic r'
unfolding read_headers
read_headers_panic zero r r' f = cc
read_headers_panic (suc fuel) r r' f = elim (Outcome-cases (read_line r)) [
  | inl ([], s, e) ↦ ground (arith, e)
  | inl (c ∷ t, s, e) ↦ elim (Header-cases (header_line f (c ∷ t))) [
    | inl (f', eo) ↦ ground (arith, e, eo, read_headers_panic fuel s r' f')
    | inr (x, eo) ↦ ground (arith, e, eo, header_line_panic f (c ∷ t))
  ]
  | inr (x, s, e) ↦ ground (arith, e, read_line_panic r s)
]

sized_body_panic :
    (r : Reader) (status : ℕ) (dst : Slice) (n : ℤ)
    → (sized_body r status dst false n).error ≢ some panic
sized_body_panic r status dst (negsuc k) = cc
sized_body_panic r status dst (pos n) = ground (arith, take_body_panic r dst n)

read_framed_panic :
    (r : Reader) (status : ℕ) (dst : Slice) (f : Framing)
    → (read_framed r status dst false f).error ≢ some panic
unfolding read_framed
read_framed_panic r status dst f =
    ground (arith, read_chunked_panic r status dst, sized_body_panic r status dst f.content_length)

behind_headers_panic :
    (status : ℕ) (dst : Slice) (o : Outcome Error Framing)
    → ((r : Reader) → o ≢ fail panic r)
    → (behind_headers status dst false o).error ≢ some panic
behind_headers_panic status dst (ok f r) h = read_framed_panic r status dst f
behind_headers_panic status dst (fail e r) h = λ q. h r (cc)

pub read_reply_panic : (r : Reader) (dst : Slice) → (read_reply r dst false).error ≢ some panic
unfolding read_reply
read_reply_panic r dst = elim (Outcome-cases (read_line r)) [
  | inl (line, s, e) ↦ rw (e, behind_line) (go s (parse_status line))
  | inr (x, s, e) ↦ rw (e, behind_line) (λ q. read_line_panic r s (e ∙ cc))
]
  where
    go : (s : Reader) (o : Option ℕ) → (behind_status dst false s o).error ≢ some panic
    go s none = cc
    go s (some status) =
        behind_headers_panic status dst (read_headers (suc (length s.unread)) s no_framing)
          (λ t. read_headers_panic (suc (length s.unread)) s t no_framing)
