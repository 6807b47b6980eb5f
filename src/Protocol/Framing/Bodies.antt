-- ===== src/Protocol/Framing/Bodies.antt =====
-- Reading and dropping a body of a known length.
use go_http_benchmark.Prelude.{
  ℕ, ◌+◌, ◌≤◌, ◌<◌, ◌≡◌, refl, sym, Bool, true, false, [], ◌++◌, none, arith, Bytes, length,
  take-append, drop-append, length-append, le→leb, subst, append-nil, if◌then◌else◌,
}
use go_http_benchmark.Golib.Slice.{Slice, view, IsSlice, fill, fill-len}
use go_http_benchmark.Golib.Strconv.{int_limit}
use go_http_benchmark.Golib.Reader.{Reader, holding, read_full, discard}
use go_http_benchmark.Protocol.Framing.{Reply, Body, take_body, read_into, of_taken}
use go_http_benchmark.Protocol.Grow.{grow-Grown, grow-eq_some, view-fill-grow, fill-grow-IsSlice}

-- A body that arrived whole, with the reader behind it. If it is kept, the buffer shows it
-- behind what it showed before; if not, the buffer is as it was.
pub record Arrived (dst : Slice) (keep : Bool) (s : Bytes) (r : Reader) (b : Body) : Type 0 where
  pub no_error : b.error ≡ none
  pub reader_is : b.reader ≡ r
  pub shows : view b.dst ≡ view dst ++ (if keep then s else [])
  pub len_is : b.dst.len ≡ dst.len + length (if keep then s else [])
  pub is_slice : IsSlice b.dst

-- A reply that is the whole of a response: its body is kept behind what the buffer showed, or
-- dropped, and the reader stands at what follows.
pub record Answered (dst : Slice) (keep : Bool) (status : ℕ) (body : Bytes) (r : Reader) (a : Reply)
    : Type 0 where
  pub status_is : a.status ≡ status
  pub no_error : a.error ≡ none
  pub n_is : a.n ≡ length body
  pub shows : view a.body ≡ view dst ++ (if keep then body else [])
  pub reader_is : a.reader ≡ r
  pub is_slice : IsSlice a.body

read_full_lem :
    (r : Reader) (b : Slice) (s rest : Bytes)
    → read_full (holding r (s ++ rest)) b (length s)
      ≡ record { dst = fill b (length s) s; error = none; reader = holding r rest }
unfolding read_full
read_full_lem r b s rest =
    let enough : length s ≤ length (s ++ rest) = omega (arith, length-append s rest) in
    rw (le→leb _ _ enough, take-append s rest, drop-append s rest)

discard_lem :
    (r : Reader) (b : Slice) (s rest : Bytes)
    → discard (holding r (s ++ rest)) b (length s)
      ≡ record { dst = b; error = none; reader = holding r rest }
unfolding discard
discard_lem r b s rest =
    let enough : length s ≤ length (s ++ rest) = omega (arith, length-append s rest) in
    rw (le→leb _ _ enough, drop-append s rest)

-- A body whose bytes are there is taken whole.
pub take_body-Arrived :
    (r : Reader) (dst : Slice) (keep : Bool) (s rest : Bytes)
    → IsSlice dst
    → dst.len + length s < int_limit
    → Arrived dst keep s (holding r rest) (take_body (holding r (s ++ rest)) dst keep (length s))
unfolding take_body
take_body-Arrived r dst false s rest h fits =
    subst (λ t. Arrived dst false s (holding r rest) (of_taken t)) (sym (discard_lem r dst s rest))
      (record {
        no_error = refl;
        reader_is = refl;
        shows = sym (append-nil (view dst));
        len_is = omega arith;
        is_slice = h;
      })
take_body-Arrived r dst true s rest h fits =
    let (b, e) = grow-eq_some dst (length s) fits in
    let g = grow-Grown dst (length s) h e in
    rw (e, read_into)
      (subst (λ t. Arrived dst true s (holding r rest) (of_taken t))
        (sym (read_full_lem r b s rest))
        (record {
          no_error = refl;
          reader_is = refl;
          shows = view-fill-grow dst s g;
          len_is = omega (arith, fill-len b (length s) s, g.len_is);
          is_slice = fill-grow-IsSlice dst s g;
        }))
