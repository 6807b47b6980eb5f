-- ===== src/Protocol/Chunked/Agree.antt =====
-- `readChunked` with the body kept and with the body dropped, side by side.
use go_http_benchmark.Prelude.{
  ℕ, zero, suc, ◌+◌, ◌≤◌, ◌<◌, ◌^◌, ◌≡◌, ◌≢◌, ◌⊎◌, inl, inr, refl, true, false, Option, none, some,
  [], ◌∷◌, arith, length, Bool-cases, Bytes, ltb, ltb→lt, ltb→le,
}
use go_http_benchmark.Golib.Slice.{Slice, IsSlice}
use go_http_benchmark.Golib.Strconv.{int_limit}
use go_http_benchmark.Golib.Reader.{Reader, ok, fail, Outcome, Outcome-cases}
use go_http_benchmark.Protocol.Errors.{Error}
use go_http_benchmark.Protocol.Framing.{Reply, Body, max_body_size, read_line}
use go_http_benchmark.Protocol.Framing.Agree.{both_short, BodyAgree, take_body-BodyAgree}
use go_http_benchmark.Protocol.Framing.Progress.{read_line-lt}
use go_http_benchmark.Protocol.Chunked.{
  chunk_size, too_large, add_total, give, Round, returned, again, chunk_end, chunk_taken,
  read_chunk, read_trailer, sized, chunk_round, chunk_loop, read_chunked,
}
use go_http_benchmark.Protocol.Chunked.Steps
use go_http_benchmark.Protocol.Chunked.Fuel.{chunk_round-Leaves}

-- Two replies of one response, the body kept in the one and dropped in the other: both without
-- error, with equal results, the body as long as is said and no longer than MaxBodySize; or both
-- fail, with an error or, where the body is kept, perhaps with a panic.
abbrev pub Agree : Reply → Reply → Type 0
Agree kept dropped =
    ((kept.error ≡ none)
      × (dropped.error ≡ none)
      × (kept.status ≡ dropped.status)
      × (kept.n ≡ dropped.n)
      × (kept.reader ≡ dropped.reader)
      × (kept.body.len ≡ kept.n)
      × (kept.n ≤ max_body_size)
      × IsSlice kept.body)
    ⊎ ((kept.error ≢ none) × (dropped.error ≢ none))

abbrev RoundAgree : Round → Round → Type 0
RoundAgree (returned kept) (returned dropped) = Agree kept dropped
RoundAgree (again dst total r) (again dst' total' r') =
    (total ≡ total') × (r ≡ r') × (dst.len ≡ total) × (total ≤ max_body_size) × IsSlice dst
RoundAgree (returned _) (again _ _ _) = ⊥
RoundAgree (again _ _ _) (returned _) = ⊥

module _ (status : ℕ) (dst dst' : Slice) (total : ℕ) (len : dst.len ≡ total)
    (small : total ≤ max_body_size) (s : IsSlice dst) where
  both_fail :
      (e e' : Error) (r r' : Reader)
      → Agree (give status dst total (some e) r) (give status dst' total (some e') r')
  both_fail e e' r r' = inr (cc, cc)

  read_trailer-Agree :
      (fuel : ℕ) (r : Reader)
      → Agree (read_trailer fuel r status dst total) (read_trailer fuel r status dst' total)
  read_trailer-Agree zero r = unfold read_trailer in both_fail _ _ r r
  read_trailer-Agree (suc fuel) r = elim (Outcome-cases (read_line r)) [
    | inl ([], r', e) ↦
        rw
          (
            Steps.read_trailer_blank r status dst fuel total e,
            Steps.read_trailer_blank r status dst' fuel total e,
          )
          (inl (refl, refl, refl, refl, refl, len, small, s))
    | inl (c ∷ t, r', e) ↦
        rw
          (
            Steps.read_trailer_line r status dst fuel total (c ∷ t) e (cc),
            Steps.read_trailer_line r status dst' fuel total (c ∷ t) e (cc),
          )
          (read_trailer-Agree fuel r')
    | inr (x, r', e) ↦
        rw
          (
            Steps.read_trailer_fail r status dst fuel total e,
            Steps.read_trailer_fail r status dst' fuel total e,
          )
          (both_fail x x r' r')
  ]

  chunk_end-RoundAgree :
      (o : Outcome Error Bytes)
      → RoundAgree (chunk_end status dst total o) (chunk_end status dst' total o)
  chunk_end-RoundAgree (fail e r) = both_fail e e r r
  chunk_end-RoundAgree (ok [] r) = (refl, refl, len, small, s)
  chunk_end-RoundAgree (ok (c ∷ t) r) = inr (cc, cc)

-- More bytes than this are never on their way on one connection.
abbrev pub stream_limit : ℕ
stream_limit = 2 ^ 62

module _ (status total size : ℕ) where
  chunk_taken_fail :
      (b : Body)
      → b.error ≢ none
      → (e : Error) × (r : Reader) × (chunk_taken status total size b.dst b.error b.reader
          ≡ returned (give status b.dst total (some e) r))
  chunk_taken_fail b ne = go b.error ne
    where
      go :
          (o : Option Error)
          → o ≢ none
          → (e : Error) × (r : Reader) × (chunk_taken status total size b.dst o b.reader
              ≡ returned (give status b.dst total (some e) r))
      go none ne = absurd (ne refl)
      go (some e) ne = (e, b.reader, refl)

  chunk_taken_short :
      (k d : Body)
      → k.error ≢ none
      → d.error ≢ none
      → RoundAgree
          (chunk_taken status total size k.dst k.error k.reader)
          (chunk_taken status total size d.dst d.error d.reader)
  chunk_taken_short k d ke de =
      let (x, r, e) = chunk_taken_fail k ke in
      let (x', r', e') = chunk_taken_fail d de in rw (e, e') (inr (cc, cc))

  chunk_taken-RoundAgree :
      (dst : Slice) (k d : Body)
      → dst.len ≡ total
      → add_total total size ≡ total + size
      → total + size ≤ max_body_size
      → BodyAgree dst size k d
      → RoundAgree
          (chunk_taken status total size k.dst k.error k.reader)
          (chunk_taken status total size d.dst d.error d.reader)
  chunk_taken-RoundAgree dst k d len sum small (inr (ke, de)) = chunk_taken_short k d ke de
  chunk_taken-RoundAgree dst k d len sum small (inl (ke, de, re, le, s)) =
      rw (ke, de, re, sum, chunk_taken)
        (chunk_end-RoundAgree status k.dst d.dst (total + size) (omega arith) small s
          (read_line d.reader))

read_chunk-RoundAgree :
    (r : Reader) (status : ℕ) (dst dst' : Slice) (total size : ℕ)
    → dst.len ≡ total
    → total ≤ max_body_size
    → IsSlice dst
    → length r.unread < stream_limit
    → RoundAgree
        (read_chunk r status dst true total size)
        (read_chunk r status dst' false total size)
unfolding read_chunk
read_chunk-RoundAgree r status dst dst' total size len small s h =
    elim (Bool-cases (too_large total size)) [
      | inl e ↦ rw e (inr (cc, cc))
      | inr e ↦ rw e (elim (Bool-cases (ltb (total + size) int_limit)) [
        | inl lt ↦
            let fits = ltb→lt _ _ lt in
            let sum : add_total total size ≡ total + size = omega arith in
            chunk_taken-RoundAgree status total size dst _ _ len sum (ground arith)
              (take_body-BodyAgree r dst dst' size s (inl (omega arith)))
        | inr ge ↦
            let big = ltb→le _ _ ge in
            let short : length r.unread < size = omega arith in
            chunk_taken_short status total size _ _ (both_short r dst true size short)
              (both_short r dst' false size short)
      ])
    ]

module _ (status : ℕ) (dst dst' : Slice) (total : ℕ) (len : dst.len ≡ total)
    (small : total ≤ max_body_size) (s : IsSlice dst) where
  sized-RoundAgree :
      (r : Reader) (o : Option ℕ)
      → length r.unread < stream_limit
      → RoundAgree (sized r status dst true total o) (sized r status dst' false total o)
  sized-RoundAgree r none h = inr (cc, cc)
  sized-RoundAgree r (some zero) h = read_trailer-Agree status dst dst' total len small s _ r
  sized-RoundAgree r (some (suc k)) h =
      read_chunk-RoundAgree r status dst dst' total (suc k) len small s h

  chunk_round-RoundAgree :
      (r : Reader)
      → length r.unread < stream_limit
      → RoundAgree (chunk_round r status dst true total) (chunk_round r status dst' false total)
  chunk_round-RoundAgree r h = elim (Outcome-cases (read_line r)) [
    | inl (line, r', e) ↦
        rw
          (
            Steps.chunk_round_line r status dst true total e,
            Steps.chunk_round_line r status dst' false total e,
          )
          (sized-RoundAgree r' (chunk_size line) (omega (arith, read_line-lt r e)))
    | inr (x, r', e) ↦
        rw
          (
            Steps.chunk_round_fail r status dst true total e,
            Steps.chunk_round_fail r status dst' false total e,
          )
          (inr (cc, cc))
  ]

chunk_loop-Agree :
    (fuel : ℕ) (r : Reader) (status : ℕ) (dst dst' : Slice) (total : ℕ)
    → dst.len ≡ total
    → total ≤ max_body_size
    → IsSlice dst
    → length r.unread < stream_limit
    → Agree (chunk_loop fuel r status dst true total) (chunk_loop fuel r status dst' false total)
chunk_loop-Agree zero r status dst dst' total len small s h = unfold chunk_loop in inr (cc, cc)
chunk_loop-Agree (suc fuel) r status dst dst' total len small s h =
    let both = chunk_round-RoundAgree status dst dst' total len small s r h in
    let left = chunk_round-Leaves r status dst true total in
    elim (Steps.Round-cases (chunk_round r status dst true total)) [
      | inl (k, ek) ↦ elim (Steps.Round-cases (chunk_round r status dst' false total)) [
        | inl (d, ed) ↦
            rw
              (
                Steps.chunk_loop_returned r status dst fuel true total ek,
                Steps.chunk_loop_returned r status dst' fuel false total ed,
              )
              (rw (ek, ed) at both)
        | inr (bd, td, rd, ed) ↦ absurd (rw (ek, ed) at both)
      ]
      | inr (bk, tk, rk, ek) ↦ elim (Steps.Round-cases (chunk_round r status dst' false total)) [
        | inl (d, ed) ↦ absurd (rw (ek, ed) at both)
        | inr (bd, td, rd, ed) ↦
            let (t, rr, lb, sm, sl) = (rw (ek, ed) at both) in
            let less : length rk.unread < length r.unread = rw ek at left in
            rw
              (
                Steps.chunk_loop_again r status dst fuel true total ek,
                Steps.chunk_loop_again r status dst' fuel false total ed,
                ← t,
                ← rr,
              )
              (chunk_loop-Agree fuel rk status bk bd tk lb sm sl (omega arith))
      ]
    ]

-- Kept or dropped, `readChunked` finds the same body.
pub read_chunked-Agree :
    (r : Reader) (status : ℕ) (dst dst' : Slice)
    → dst.len ≡ 0
    → length r.unread < stream_limit
    → Agree (read_chunked r status dst true) (read_chunked r status dst' false)
unfolding read_chunked
read_chunked-Agree r status dst dst' len h =
    chunk_loop-Agree (suc (length r.unread)) r status dst dst' 0 len (omega arith) (omega arith) h
