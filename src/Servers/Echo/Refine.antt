-- ===== src/Servers/Echo/Refine.antt =====
-- A server with a pool of buffers, and one with none.
use go_http_benchmark.Prelude.{
  ℕ, ◌<◌, ◌≡◌, refl, ap, false, List, [], ◌∷◌, some, length, take, arith, Bool-cases, inl, inr, leb,
  leb→le, map, ℤ, pos, negsuc, All, length-replicate,
}
use go_http_benchmark.Golib.Body.{Stream, read_full_error, short_error, content}
use go_http_benchmark.Golib.Slice.{Slice, view, IsSlice}
use go_http_benchmark.Servers.Echo.{
  not_eof, read_body, Served, answer, pool_get, pool_rest, echo, echo_all,
}
use go_http_benchmark.Servers.Echo.Body.{
  view-read_body_known, view-read_body_unknown, read_body-KeepsBuffer,
}

-- The answer to a request by itself: as many bytes of its body as its length says, or all of them.
abbrev pub respond : Stream × ℤ → Served
respond (s, pos n) = answer (read_full_error n s) (take n (content s))
respond (s, negsuc k) = answer (not_eof s.ending) (content s)

read_full_error_short :
    (n : ℕ) (s : Stream)
    → leb n (length (content s)) ≡ false
    → read_full_error n s ≡ some (short_error (content s) s.ending)
unfolding read_full_error
read_full_error_short n s e = rw e refl

module _ (next_cap : ℕ → ℕ) (grows : (n : ℕ) → n < next_cap n) (payload : ℕ) where
  error_known :
      (b : Slice) (s : Stream) (n : ℕ)
      → (read_body next_cap b s (pos n)).error ≡ read_full_error n s
  unfolding read_body
  error_known b s n = refl

  answer-read_body :
      (b : Slice) (s : Stream) (n : ℤ)
      → let r = read_body next_cap b s n in answer r.error (view r.body) ≡ respond (s, n)
  answer-read_body b s (pos n) = elim (Bool-cases (leb n (length (content s)))) [
    | inl e ↦
        rw
          (
            error_known b s n,
            view-read_body_known next_cap grows b s n (leb→le n (length (content s)) e),
          )
          refl
    | inr e ↦ rw (error_known b s n) (too_short e)
  ]
    where
      too_short :
          leb n (length (content s)) ≡ false
          → answer (read_full_error n s) (view (read_body next_cap b s (pos n)).body)
            ≡ answer (read_full_error n s) (take n (content s))
      too_short e = rw (read_full_error_short n s e) refl
  answer-read_body b s (negsuc k) =
      let (whole, error) = view-read_body_unknown next_cap grows b s k in rw (whole, error) refl

  pool_get-IsSlice : (pool : List Slice) → All IsSlice pool → IsSlice (pool_get payload pool)
  pool_get-IsSlice [] h = omega (arith, length-replicate {A = ℕ} payload 0)
  pool_get-IsSlice (b ∷ pool) (hb, h) = hb

  pool_rest-All : (pool : List Slice) → All IsSlice pool → All IsSlice (pool_rest pool)
  pool_rest-All [] h = tt
  pool_rest-All (b ∷ pool) (hb, h) = h

  -- Whatever buffers are in the pool, each lying in its array, and whatever earlier requests left in
  -- them: a server answers each of its requests as it would answer it with no pool. An answer with
  -- an error status is one to a body that broke off, and any other one carries the bytes of the
  -- request's body and their number.
  pub echo_all_refines :
      (pool : List Slice) (requests : List (Stream × ℤ))
      → All IsSlice pool
      → echo_all next_cap payload pool requests ≡ map respond requests
  unfolding echo_all echo
  echo_all_refines pool [] h = refl
  echo_all_refines pool ((s, n) ∷ requests) h =
      let b = pool_get payload pool in
      let (keeps, more, in_time) =
        read_body-KeepsBuffer next_cap grows b s n (pool_get-IsSlice pool h) in
      rw (answer-read_body b s n) (
        ap (λ l. respond (s, n) ∷ l)
          (echo_all_refines ((read_body next_cap b s n).buffer ∷ pool_rest pool) requests
            (keeps, pool_rest-All pool h)))
