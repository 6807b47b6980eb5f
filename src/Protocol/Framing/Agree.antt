-- ===== src/Protocol/Framing/Agree.antt =====
-- Reading a body and dropping it, side by side.
use go_http_benchmark.Prelude.{
  ℕ, ◌+◌, ◌≤◌, ◌<◌, ◌≡◌, ◌≢◌, ◌⊎◌, inl, inr, sym, ◌∙◌, Bool, true, false, none, arith, length, leb,
  Bool-cases, leb→le, leb→lt, take, length-take, drop, subst, take-append-drop,
}
use go_http_benchmark.Golib.Slice.{Slice, IsSlice}
use go_http_benchmark.Golib.Strconv.{int_limit}
use go_http_benchmark.Golib.Reader.{Reader, holding, read_full, discard}
use go_http_benchmark.Protocol.Framing.{Body, take_body}
use go_http_benchmark.Protocol.Framing.Bodies.{Arrived, take_body-Arrived}

-- Both went well and left the reader at one place, the kept one `n` bytes longer; or both failed.
abbrev pub BodyAgree : Slice → ℕ → Body → Body → Type 0
BodyAgree dst n kept dropped =
    ((kept.error ≡ none)
      × (dropped.error ≡ none)
      × (kept.reader ≡ dropped.reader)
      × (kept.dst.len ≡ dst.len + n)
      × IsSlice kept.dst)
    ⊎ ((kept.error ≢ none) × (dropped.error ≢ none))

-- A body that is kept, as long as its bytes are there.
kept_enough :
    (r : Reader) (dst : Slice) (n : ℕ)
    → IsSlice dst
    → n ≤ length r.unread
    → dst.len + n < int_limit
    → Arrived dst true (take n r.unread) (holding r (drop n r.unread)) (take_body r dst true n)
kept_enough r dst n h le fits =
    let s = take n r.unread in
    let rest = drop n r.unread in
    let e : length s ≡ n = omega (arith, length-take n r.unread) in
    subst (λ m. Arrived dst true s (holding r rest) (take_body r dst true m)) e
      (subst
        (λ u. Arrived dst true s (holding r rest) (take_body (holding r u) dst true (length s)))
        (take-append-drop n r.unread) (take_body-Arrived r dst true s rest h (omega arith)))

dropped_enough :
    (r : Reader) (dst : Slice) (n : ℕ)
    → n ≤ length r.unread
    → ((take_body r dst false n).error ≡ none)
      × ((take_body r dst false n).reader ≡ holding r (drop n r.unread))
unfolding take_body discard
dropped_enough r dst n le = ground arith

pub both_short :
    (r : Reader) (dst : Slice) (keep : Bool) (n : ℕ)
    → length r.unread < n
    → (take_body r dst keep n).error ≢ none
unfolding take_body discard read_full
both_short r dst true n lt = ground arith
both_short r dst false n lt = ground arith

-- The two ways of taking a body agree, unless the buffer would outgrow an `int` with the bytes
-- all there.
pub take_body-BodyAgree :
    (r : Reader) (dst dst' : Slice) (n : ℕ)
    → IsSlice dst
    → (dst.len + n < int_limit) ⊎ (length r.unread < n)
    → BodyAgree dst n (take_body r dst true n) (take_body r dst' false n)
take_body-BodyAgree r dst dst' n h room = elim (Bool-cases (leb n (length r.unread))) [
  | inl e ↦
      let le = leb→le _ _ e in
      let k = kept_enough r dst n h le (omega arith) in
      let (none', reader') = dropped_enough r dst' n le in
      inl (
        k.no_error,
        none',
        k.reader_is ∙ sym reader',
        omega (arith, k.len_is, length-take n r.unread),
        k.is_slice,
      )
  | inr e ↦ inr (both_short r dst true n (leb→lt _ _ e), both_short r dst' false n (leb→lt _ _ e))
]
