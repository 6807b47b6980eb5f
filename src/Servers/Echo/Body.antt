-- ===== src/Servers/Echo/Body.antt =====
-- A body that was read is what the request carried.
use go_http_benchmark.Prelude.{
  ℕ, zero, suc, ◌-◌, ◌≤◌, ◌<◌, ◌≡◌, refl, sym, ap, ◌∙◌, append_assoc, append-nil, true, ◌++◌, none,
  some, Bytes, length, take, drop, length-append, length-take, length-drop, length-replicate,
  take_prefix, take-append, arith, Bool-cases, Option-cases, inl, inr, ltb, ◌==◌, replicate, subst,
  ℤ, pos, negsuc,
}
use go_http_benchmark.Golib.Body.{Stream, ReadError, read, content}
use go_http_benchmark.Golib.Body.Reads.{size, read-Reads}
use go_http_benchmark.Golib.Slice.{
  Slice, cap, view, reset, IsSlice, extend, view-extend, cap-extend, len-extend,
}
use go_http_benchmark.Servers.Echo.{BodyRead, not_eof, filled, fit, roomy, read_rest, read_body}

module _ (next_cap : ℕ → ℕ) (grows : (n : ℕ) → n < next_cap n) where
  -- The buffer that the next read goes into.
  record Roomy (b r : Slice) : Type 0 where
    same_len : r.len ≡ b.len
    same_view : view r ≡ view b
    more : b.len < cap r
    no_less : cap b ≤ cap r

  roomy-Roomy : (b : Slice) → IsSlice b → Roomy b (roomy next_cap b)
  roomy-Roomy b h = elim (Bool-cases (b.len == cap b)) [
    | inl e ↦ rw e (record {
      same_len = refl;
      same_view = take_prefix b.len b.array _ h;
      more = omega (
        arith,
        grows (cap b),
        length-append b.array (replicate (next_cap (cap b) - cap b) 0),
        length-replicate {A = ℕ} (next_cap (cap b) - cap b) 0,
      );
      no_less = omega (arith, length-append b.array (replicate (next_cap (cap b) - cap b) 0));
    })
    | inr e ↦
        rw e
          (record { same_len = refl; same_view = refl; more = ground arith; no_less = omega arith })
  ]

  -- What the loop leaves: all that came is behind what the buffer showed, and the error is that of
  -- the stream, unless it just ended.
  record Rest (s : Stream) (b : Slice) (r : BodyRead) : Type 0 where
    pub whole : view r.body ≡ view b ++ content s
    pub error_is : r.error ≡ not_eof s.ending
    pub in_time : r.in_time ≡ true
    pub is_slice : IsSlice r.buffer
    pub no_less : cap b ≤ cap r.buffer

  step_more :
      (fuel : ℕ) (s : Stream) (b : Slice)
      → (read (cap (roomy next_cap b) - b.len) s).error ≡ none
      → let got = read (cap (roomy next_cap b) - b.len) s in
        read_rest next_cap (suc fuel) s b
        ≡ read_rest next_cap fuel got.rest (extend (roomy next_cap b) got.bytes)
  unfolding read_rest
  step_more fuel s b h = rw (h, read_rest) refl

  step_last :
      (fuel : ℕ) (s : Stream) (b : Slice) (e : ReadError)
      → (read (cap (roomy next_cap b) - b.len) s).error ≡ some e
      → let got = read (cap (roomy next_cap b) - b.len) s in
        let b' = extend (roomy next_cap b) got.bytes in
        read_rest next_cap (suc fuel) s b
        ≡ record { body = b'; buffer = reset b'; error = not_eof e; in_time = true }
  unfolding read_rest
  step_last fuel s b e h = rw (h, read_rest) refl

  read_rest-Rest :
      (fuel : ℕ) (s : Stream) (b : Slice)
      → IsSlice b
      → size s < fuel
      → Rest s b (read_rest next_cap fuel s b)
  read_rest-Rest zero s b h l = elim l [ ]
  read_rest-Rest (suc fuel) s b h l =
      let r = roomy next_cap b in
      let room = roomy-Roomy b h in
      let got = read (cap r - b.len) s in
      let g = read-Reads (cap r - b.len) s (omega (arith, room.more)) in
      let b' = extend r got.bytes in
      let fits : b'.len ≤ cap b' =
        omega (
          arith,
          len-extend r got.bytes,
          cap-extend r got.bytes,
          room.more,
          room.same_len,
          g.room,
        ) in
      let same_cap : cap b' ≡ cap r =
        cap-extend r got.bytes (omega (arith, room.more, room.same_len, g.room)) in
      let seen : view b' ≡ view b ++ got.bytes =
        view-extend r got.bytes (omega (arith, room.more, room.same_len))
        ∙ ap (λ v. v ++ got.bytes) room.same_view in
      elim (Option-cases got.error) [
        | inl e ↦
            let z = read_rest-Rest fuel got.rest b' fits (omega (arith, g.less e)) in
            rw (step_more fuel s b e) (record {
              whole =
                  z.whole
                  ∙ ap (λ v. v ++ content got.rest) seen
                  ∙ append_assoc (view b) got.bytes (content got.rest)
                  ∙ ap (λ t. view b ++ t) (sym g.front);
              error_is = z.error_is ∙ ap not_eof g.ending;
              in_time = z.in_time;
              is_slice = z.is_slice;
              no_less = omega (arith, z.no_less, same_cap, room.no_less);
            })
        | inr (x, e) ↦
            let (last, nothing) = g.last x e in
            rw (step_last fuel s b x e) (record {
              whole =
                  seen
                  ∙ ap (λ t. view b ++ t)
                      (sym (append-nil got.bytes)
                        ∙ ap (λ t. got.bytes ++ t) (sym nothing)
                        ∙ sym g.front);
              error_is = ap not_eof last;
              in_time = refl;
              is_slice = omega arith;
              no_less = omega (arith, same_cap, room.no_less);
            })
      ]

  -- The pooled buffer, long enough for a body of a known length.
  cap-fit :
      (n : ℕ) (b : Slice)
      → IsSlice b
      → (n ≤ cap (fit next_cap n b)) × (cap b ≤ cap (fit next_cap n b)) × IsSlice (fit next_cap n b)
  cap-fit n b h = elim (Bool-cases (ltb (cap b) n)) [
    | inl e ↦ rw e (ground (arith, length-replicate {A = ℕ} n 0))
    | inr e ↦ rw e (ground arith)
  ]

  cap-filled : (b : Slice) (n : ℕ) (s : Bytes) → length s ≤ cap b → cap (filled b n s) ≡ cap b
  cap-filled b n s h =
      omega (arith, length-append s (drop (length s) b.array), length-drop (length s) b.array)

  view-filled : (b : Slice) (s : Bytes) → view (filled b (length s) s) ≡ s
  view-filled b s = take-append s (drop (length s) b.array)

  -- What is left of a buffer behind a request: it lies in its array, which is no smaller.
  abbrev pub KeepsBuffer : Slice → BodyRead → Type 0
  KeepsBuffer b r = IsSlice r.buffer × (cap b ≤ cap r.buffer) × (r.in_time ≡ true)

  pub read_body-KeepsBuffer :
      (b : Slice) (s : Stream) (n : ℤ) → IsSlice b → KeepsBuffer b (read_body next_cap b s n)
  unfolding read_body
  read_body-KeepsBuffer b s (pos n) h =
      let (enough, more, inside) = cap-fit n b h in
      let same =
        cap-filled (fit next_cap n b) n (take n (content s))
          (omega (arith, length-take n (content s))) in
      (omega (arith, same), omega (arith, same), refl)
  read_body-KeepsBuffer b s (negsuc k) h =
      let z = read_rest-Rest (suc (size s)) s (reset b) (omega arith) (omega arith) in
      (z.is_slice, z.no_less, z.in_time)

  -- A body of a known length that comes whole, whatever is in the buffer.
  pub view-read_body_known :
      (b : Slice) (s : Stream) (n : ℕ)
      → n ≤ length (content s)
      → view (read_body next_cap b s (pos n)).body ≡ take n (content s)
  unfolding read_body
  view-read_body_known b s n h =
      let e : length (take n (content s)) ≡ n = omega (arith, length-take n (content s)) in
      subst (λ m. view (filled (fit next_cap n b) m (take n (content s))) ≡ take n (content s)) e
        (view-filled (fit next_cap n b) (take n (content s)))

  -- A body of unknown length.
  pub view-read_body_unknown :
      (b : Slice) (s : Stream) (k : ℕ)
      → let r = read_body next_cap b s (negsuc k) in
        (view r.body ≡ content s) × (r.error ≡ not_eof s.ending)
  unfolding read_body
  view-read_body_unknown b s k =
      let z = read_rest-Rest (suc (size s)) s (reset b) (omega arith) (omega arith) in
      (z.whole, z.error_is)
