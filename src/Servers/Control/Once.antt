-- ===== src/Servers/Control/Once.antt =====
-- The requests to /init, over all their steps.
use go_http_benchmark.Prelude.{
  ℕ, ◌+◌, ◌≤◌, ◌≡◌, refl, ap, true, false, List, [], ◌∷◌, ◌++◌, Option, none, some, Bytes, length,
  length-append, arith, Bool-cases, inl, inr, ◌⊎◌, All, All-append,
}
use go_http_benchmark.Golib.Strconv.{itoa}
use go_http_benchmark.Servers.Control.{
  Phase, waiting, has_body, won, answering, answered, bad_request, pid_text, State, swap,
  after_swap, Served, Step, reads, swaps, makes, answers, arrives, Reachable, start, step,
  after_read,
}

-- The request has not got to the flag, and was not answered with a pid.
abbrev pub IsPending : Phase → Type 0
IsPending waiting = Unit
IsPending (has_body body) = Unit
IsPending (won body) = ⊥
IsPending answering = ⊥
IsPending (answered bad_request) = Unit
IsPending (answered (pid_text text)) = ⊥

abbrev won_one : Phase → ℕ
won_one waiting = 0
won_one (has_body body) = 0
won_one (won body) = 1
won_one answering = 0
won_one (answered a) = 0

-- How many requests swapped the flag and have not made the goroutine yet.
abbrev pub winners : List Phase → ℕ
winners [] = 0
winners (p ∷ ps) = won_one p + winners ps

-- The goroutine was made, or is about to be by one request, where the flag is set; where it is not, no
-- request got to the flag.
record Inv (s : Served) : Type 0 where
  set : s.state.ps_started ≡ true → length s.state.starts + winners s.requests ≡ 1
  unset :
      s.state.ps_started ≡ false
      → (length s.state.starts + winners s.requests ≡ 0) × All IsPending s.requests

replaced :
    (before behind : List Phase) (p q : Phase)
    → All IsPending (before ++ p ∷ behind)
    → IsPending q
    → All IsPending (before ++ q ∷ behind)
replaced [] behind p q (h, hs) k = (k, hs)
replaced (r ∷ before) behind p q (h, hs) k = (h, replaced before behind p q hs k)

-- The request at the split is one of them.
at_split :
    (before behind : List Phase) (p : Phase) → All IsPending (before ++ p ∷ behind) → IsPending p
at_split [] behind p (h, hs) = h
at_split (r ∷ before) behind p (h, hs) = at_split before behind p hs

winners-split :
    (before behind : List Phase) (p : Phase)
    → winners (before ++ p ∷ behind) ≡ won_one p + (winners before + winners behind)
winners-split [] behind p = omega arith
winners-split (r ∷ before) behind p = omega (arith, winners-split before behind p)

winners-last : (requests : List Phase) → winners (requests ++ waiting ∷ []) ≡ winners requests
winners-last requests = omega (arith, winners-split requests [] waiting)

after_read-IsPending : (body : Option Bytes) → IsPending (after_read body)
after_read-IsPending none = tt
after_read-IsPending (some body) = tt

after_read-won : (body : Option Bytes) → won_one (after_read body) ≡ 0
after_read-won none = refl
after_read-won (some body) = refl

swap-set : (s : State) → (swap s).1.ps_started ≡ true
unfolding swap
swap-set s = elim (Bool-cases s.ps_started) [ inl e ↦ rw e refl | inr e ↦ rw e refl ]

-- The swap makes no goroutine, and is won exactly where the flag was not set.
swap_lem :
    (s : State) (body : Bytes)
    → ((s.ps_started ≡ true)
        × (won_one (after_swap (swap s).0 body) ≡ 0)
        × ((swap s).1.starts ≡ s.starts))
      ⊎ ((s.ps_started ≡ false)
          × (won_one (after_swap (swap s).0 body) ≡ 1)
          × ((swap s).1.starts ≡ s.starts))
unfolding swap
swap_lem s body = elim (Bool-cases s.ps_started) [
  | inl e ↦ inl (e, rw e refl, rw e refl)
  | inr e ↦ inr (e, rw e refl, rw e refl)
]

module _ (interval : Bytes → ℕ) (pid : ℕ) where
  Step-Inv : {s t : Served} → Step interval pid s t → Inv s → Inv t
  Step-Inv (reads s before behind body) v =
      let from = winners-split before behind waiting in
      let to = winners-split before behind (after_read body) in
      record {
        set = λ e. omega (arith, v.set e, from, to, after_read-won body);
        unset = λ e.
            let (none_yet, pending) = v.unset e in
            (
              omega (arith, none_yet, from, to, after_read-won body),
              replaced before behind waiting (after_read body) pending (after_read-IsPending body),
            );
      }
  Step-Inv (swaps s before behind body) v =
      let from = winners-split before behind (has_body body) in
      let to = winners-split before behind (after_swap (swap s).0 body) in
      record {
        set = λ e. elim (swap_lem s body) [
          | inl (b, w, same) ↦ omega (arith, v.set b, from, to, w, ap length same)
          | inr (b, w, same) ↦ omega (arith, (v.unset b).0, from, to, w, ap length same)
        ];
        unset = λ e. absurd (cc (e, swap-set s));
      }
  Step-Inv (makes s before behind body) v =
      let from = winners-split before behind (won body) in
      let to = winners-split before behind answering in
      record {
        set = λ e. omega (arith, v.set e, from, to, length-append s.starts (interval body ∷ []));
        unset = λ e. absurd (at_split before behind (won body) (v.unset e).1);
      }
  Step-Inv (answers s before behind) v =
      let from = winners-split before behind answering in
      let to = winners-split before behind (answered (pid_text (itoa pid))) in
      record {
        set = λ e. omega (arith, v.set e, from, to);
        unset = λ e. absurd (at_split before behind answering (v.unset e).1);
      }
  Step-Inv (arrives s requests) v = record {
    set = λ e. omega (arith, v.set e, winners-last requests);
    unset = λ e.
        let (none_yet, pending) = v.unset e in
        (
          omega (arith, none_yet, winners-last requests),
          All-append IsPending requests (waiting ∷ []) pending (tt, tt),
        );
  }

  Reachable-Inv : {s : Served} → Reachable interval pid s → Inv s
  Reachable-Inv start = record { set = cc; unset = λ e. (refl, tt) }
  Reachable-Inv (step r x) = Step-Inv x (Reachable-Inv r)

  -- However many requests to /init arrive, and however their handlers interleave, with the swap of the
  -- flag, the go statement and the answer as steps of their own: the goroutines that were made to
  -- start the counter, and the requests that swapped the flag and are about to make one, are together
  -- at most one. They are exactly one once a request got past the swap, and so once any was answered
  -- with the pid: the goroutine was made then, or the one request that swapped the flag is about to
  -- make it.
  pub started_once :
      (s : Served)
      → Reachable interval pid s
      → (length s.state.starts + winners s.requests ≤ 1)
        × (All IsPending s.requests ⊎ (length s.state.starts + winners s.requests ≡ 1))
  started_once s r =
      let v = Reachable-Inv r in
      elim (Bool-cases s.state.ps_started) [
        | inl e ↦ (omega (arith, v.set e), inr (v.set e))
        | inr e ↦ let (none_yet, pending) = v.unset e in (omega (arith, none_yet), inl pending)
      ]
