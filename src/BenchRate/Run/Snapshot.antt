-- ===== src/BenchRate/Run/Snapshot.antt =====
-- benchcli-go/benchrate/benchrate.go: the counters that the readers of a run share, and the moment at
-- which Run takes them.
use go_http_benchmark.Prelude.{
  ℕ, zero, suc, ◌+◌, ◌≤◌, ◌≡◌, refl, sym, ap, ◌∙◌, subst, Bool, true, false, List, [], ◌∷◌, ◌++◌,
  length, length-append, replicate, arith,
}

-- What the readers have added: to `answered`, for every response, and to `recvTimes`, for each with a
-- status of 200; `wrong` is how many had another one. A reader is true between its first addition
-- for a response and what follows it.
pub record Counters : Type 0 where
  pub answered : ℕ
  pub recv_times : ℕ
  pub wrong : ℕ
  pub readers : List Bool

-- One reader goes on: it adds a response to `answered`, or goes on to add it to `recvTimes` or not.
pub data Step : Counters → Counters → Type 0 where
  answers :
      (a r w : ℕ) (before behind : List Bool)
      → Step
          (record { answered = a; recv_times = r; wrong = w; readers = before ++ false ∷ behind })
          (record {
            answered = suc a;
            recv_times = r;
            wrong = w;
            readers = before ++ true ∷ behind;
          })
  counts :
      (a r w : ℕ) (before behind : List Bool)
      → Step
          (record { answered = a; recv_times = r; wrong = w; readers = before ++ true ∷ behind })
          (record {
            answered = a;
            recv_times = suc r;
            wrong = w;
            readers = before ++ false ∷ behind;
          })
  leaves :
      (a r w : ℕ) (before behind : List Bool)
      → Step
          (record { answered = a; recv_times = r; wrong = w; readers = before ++ true ∷ behind })
          (record {
            answered = a;
            recv_times = r;
            wrong = suc w;
            readers = before ++ false ∷ behind;
          })

-- The counters of a run with `n` connections.
pub data Reachable (n : ℕ) : Counters → Type 0 where
  start :
      Reachable n (record { answered = 0; recv_times = 0; wrong = 0; readers = replicate n false })
  step : {c d : Counters} → Reachable n c → Step c d → Reachable n d

abbrev one : Bool → ℕ
one true = 1
one false = 0

-- How many readers are between their additions.
abbrev between : List Bool → ℕ
between [] = 0
between (b ∷ bs) = one b + between bs

between-append :
    (xs : List Bool) (b : Bool) (ys : List Bool)
    → between (xs ++ b ∷ ys) ≡ between xs + (one b + between ys)
between-append [] b ys = omega arith
between-append (x ∷ xs) b ys = omega (arith, between-append xs b ys)

between_le : (bs : List Bool) → between bs ≤ length bs
between_le [] = omega arith
between_le (true ∷ bs) = omega (arith, between_le bs)
between_le (false ∷ bs) = omega (arith, between_le bs)

between_none : (n : ℕ) → (between (replicate n false) ≡ 0) × (length (replicate n false) ≡ n)
between_none zero = (refl, refl)
between_none (suc n) = let (b, l) = between_none n in (omega (arith, b), ap suc l)

-- Every response was counted, or was a wrong one, or its reader is between its additions.
record Inv (n : ℕ) (c : Counters) : Type 0 where
  sum : c.answered ≡ c.recv_times + (c.wrong + between c.readers)
  all_readers : length c.readers ≡ n

length-same :
    (before behind : List Bool) (x y : Bool)
    → length (before ++ x ∷ behind) ≡ length (before ++ y ∷ behind)
length-same before behind x y =
    length-append before (x ∷ behind) ∙ sym (length-append before (y ∷ behind))

step-Inv : (n : ℕ) {c d : Counters} → Step c d → Inv n c → Inv n d
step-Inv n (answers a r w before behind) v = record {
  sum = omega (arith, v.sum, between-append before false behind, between-append before true behind);
  all_readers = length-same before behind true false ∙ v.all_readers;
}
step-Inv n (counts a r w before behind) v = record {
  sum = omega (arith, v.sum, between-append before false behind, between-append before true behind);
  all_readers = length-same before behind false true ∙ v.all_readers;
}
step-Inv n (leaves a r w before behind) v = record {
  sum = omega (arith, v.sum, between-append before false behind, between-append before true behind);
  all_readers = length-same before behind false true ∙ v.all_readers;
}

Reachable-Inv : (n : ℕ) {c : Counters} → Reachable n c → Inv n c
Reachable-Inv n start =
    let (b, l) = between_none n in record { sum = omega (arith, b); all_readers = l }
Reachable-Inv n (step r s) = step-Inv n s (Reachable-Inv n r)

-- The counters where `k` readers are between their additions for their first response.
abbrev pub first_responses : ℕ → ℕ → Counters
first_responses k left = record {
  answered = k;
  recv_times = 0;
  wrong = 0;
  readers = replicate k true ++ replicate left false;
}

one_more :
    (k : ℕ) (ys : List Bool) → replicate k true ++ true ∷ ys ≡ true ∷ (replicate k true ++ ys)
one_more zero ys = refl
one_more (suc k) ys = ap (λ (bs : List Bool). true ∷ bs) (one_more k ys)

reach : (n k left : ℕ) → n ≡ k + left → Reachable n (first_responses k left)
reach n zero left e = subst (λ (m : ℕ). Reachable n (first_responses 0 m)) (omega (arith, e)) start
reach n (suc k) left e =
    subst
      (λ (bs : List Bool).
        Reachable n (record { answered = suc k; recv_times = 0; wrong = 0; readers = bs }))
      (one_more k (replicate left false))
      (step (reach n k (suc left) (omega (arith, e)))
        (answers k 0 0 (replicate k true) (replicate left false)))

-- When Run takes the counters of a run, all that was sent being answered, then however the readers
-- interleaved, the responses in recvTimes, taken together with those that were seen to be wrong, which
-- Run does not report, are at most one for each connection fewer than those that were sent, and no
-- more than those that were answered. They can be that many fewer: on any number of connections, with
-- one request sent on each, every one can be answered and none be in recvTimes or seen to be wrong.
pub snapshot_bounds :
    (n send_times : ℕ) (c : Counters)
    → Reachable n c
    → send_times ≤ c.answered
    → (send_times ≤ c.recv_times + c.wrong + n)
      × (c.recv_times + c.wrong ≤ c.answered)
      × Reachable n (first_responses n 0)
snapshot_bounds n send_times c r h =
    let v = Reachable-Inv n r in
    (
      omega (arith, v.sum, v.all_readers, between_le c.readers),
      omega (arith, v.sum),
      reach n n 0 (omega arith),
    )
