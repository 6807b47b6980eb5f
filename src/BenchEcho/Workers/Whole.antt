-- ===== src/BenchEcho/Workers/Whole.antt =====
-- The connections of a run of BenchEcho, over all its steps.
use go_http_benchmark.Prelude.{
  ℕ, zero, suc, ◌+◌, ◌≤◌, ◌≡◌, refl, sym, ap, ◌∙◌, subst, Bool, List, [], ◌∷◌, ◌++◌, Option, none,
  some, Bytes, length, length-append, append_assoc, replicate, length-replicate, arith, perm_front,
  perm_keep, append-nil,
}
use mathlib.Core.List.{Perm}
use mathlib.Core.List.Perm
use go_http_benchmark.Connections.{Conn}
use go_http_benchmark.BenchEcho.Workers.{
  State, Step, takes, gives, Reachable, start, step, held_one, held, placed, places, Placed,
}
use go_http_benchmark.BenchEcho.Workers.Back.{do_once-PutsBack}

-- What stays as it was at the start: the number of workers, and the addresses of the connections, in
-- the channel and in the workers' hands, in some order.
pub record Whole (n : ℕ) (conns : List Conn) (s : State) : Type 0 where
  pub all_workers : length s.workers ≡ n
  pub all_conns : length s.channel + length (held s.workers) ≡ length conns
  pub same_places : Perm (places (s.channel ++ held s.workers)) (places (placed 0 conns))

held-append : (xs ys : List (Option Placed)) → held (xs ++ ys) ≡ held xs ++ held ys
held-append [] ys = refl
held-append (none ∷ xs) ys = held-append xs ys
held-append (some c ∷ xs) ys = ap (λ (cs : List Placed). c ∷ cs) (held-append xs ys)

places-append : (xs ys : List Placed) → places (xs ++ ys) ≡ places xs ++ places ys
places-append [] ys = refl
places-append (c ∷ xs) ys =
    ap (λ (as' : List (ℕ × Bytes)). (c.0, c.1.addr) ∷ as') (places-append xs ys)

held-none : (n : ℕ) → held (replicate n none) ≡ []
held-none zero = refl
held-none (suc n) = held-none n

-- All addresses, split at a worker.
places-split :
    (channel : List Placed) (before : List (Option Placed)) (w : Option Placed)
    (behind : List (Option Placed))
    → places (channel ++ held (before ++ w ∷ behind))
      ≡ places channel ++ (places (held before) ++ places (held_one w (held behind)))
places-split channel before w behind =
    places-append channel (held (before ++ w ∷ behind))
    ∙ ap (λ (as' : List (ℕ × Bytes)). places channel ++ as')
        (ap places (held-append before (w ∷ behind))
          ∙ places-append (held before) (held_one w (held behind)))

length-held :
    (before : List (Option Placed)) (w : Option Placed) (behind : List (Option Placed))
    → length (held (before ++ w ∷ behind))
      ≡ length (held before) + length (held_one w (held behind))
length-held before w behind =
    ap length (held-append before (w ∷ behind))
    ∙ length-append (held before) (held_one w (held behind))

length-split :
    (before : List (Option Placed)) (v w : Option Placed) (behind : List (Option Placed))
    → length (before ++ v ∷ behind) ≡ length (before ++ w ∷ behind)
length-split before v w behind =
    length-append before (v ∷ behind) ∙ sym (length-append before (w ∷ behind))

length-placed : (i : ℕ) (conns : List Conn) → length (placed i conns) ≡ length conns
length-placed i [] = refl
length-placed i (c ∷ cs) = ap suc (length-placed (suc i) cs)

start-Whole :
    (n : ℕ) (conns : List Conn)
    → Whole n conns (record { channel = placed 0 conns; workers = replicate n none })
start-Whole n conns = record {
  all_workers = length-replicate n none;
  all_conns = rw (held-none n) (omega (arith, length-placed 0 conns));
  same_places = rw (held-none n, append-nil (placed 0 conns)) (Perm.refl (places (placed 0 conns)));
}

step-Whole :
    (check_valid : Bool) (n : ℕ) (conns : List Conn) {s t : State}
    → Step check_valid s t
    → Whole n conns s
    → Whole n conns t
step-Whole check_valid n conns (takes c channel before behind) w = record {
  all_workers = length-split before (some c) none behind ∙ w.all_workers;
  all_conns =
      omega
        (arith, w.all_conns, length-held before none behind, length-held before (some c) behind);
  same_places =
      Perm.trans
        (rw (places-split channel before (some c) behind) (
          Perm.trans
            (perm_keep (places channel)
              (perm_front (c.0, c.1.addr) (places (held before)) (places (held behind))))
            (perm_front (c.0, c.1.addr) (places channel)
              (places (held before) ++ places (held behind)))))
        (subst (λ (as' : List (ℕ × Bytes)). Perm ((c.0, c.1.addr) ∷ as') (places (placed 0 conns)))
          (places-split channel before none behind) w.same_places);
}
step-Whole check_valid n conns (gives c channel before behind pbuffer out b) w =
    let (d, same, addr) = do_once-PutsBack check_valid pbuffer out b c.1 in
    record {
      all_workers = length-split before none (some c) behind ∙ w.all_workers;
      all_conns =
          rw (same, length-append channel ((c.0, d) ∷ []))
            (omega (
              arith,
              w.all_conns,
              length-held before none behind,
              length-held before (some c) behind,
            ));
      same_places =
          rw
            (
              same,
              places-split (channel ++ (c.0, d) ∷ []) before none behind,
              places-append channel ((c.0, d) ∷ []),
              addr,
              append_assoc (places channel) ((c.0, c.1.addr) ∷ [])
                  (places (held before) ++ places (held behind)),
            )
            (Perm.trans
              (perm_keep (places channel) (
                Perm.symm
                  (perm_front (c.0, c.1.addr) (places (held before)) (places (held behind)))))
              (subst (λ (as' : List (ℕ × Bytes)). Perm as' (places (placed 0 conns)))
                (places-split channel before (some c) behind) w.same_places));
    }

Reachable-Whole :
    (check_valid : Bool) (n : ℕ) (conns : List Conn) {s : State}
    → Reachable check_valid n conns s
    → Whole n conns s
Reachable-Whole check_valid n conns start = start-Whole n conns
Reachable-Whole check_valid n conns (step r m) =
    step-Whole check_valid n conns m (Reachable-Whole check_valid n conns r)

-- How many workers are about to take a connection.
abbrev pub idle : List (Option Placed) → ℕ
idle [] = 0
idle (none ∷ ws) = suc (idle ws)
idle (some c ∷ ws) = idle ws

held-idle : (ws : List (Option Placed)) → length (held ws) + idle ws ≡ length ws
held-idle [] = omega arith
held-idle (none ∷ ws) = omega (arith, held-idle ws)
held-idle (some c ∷ ws) = omega (arith, held-idle ws)

-- However the workers of a run of BenchEcho interleave and whatever comes of their requests, no
-- connection is lost and none is held twice: the connections in the channel and in the workers'
-- hands, told apart by their places in Conns, are in some order each of those of the run once, with
-- its address. And no worker waits for a connection: where the workers are no more than the
-- connections, as init sees to, the channel has one for each worker that is about to take.
pub workers_lem :
    (check_valid : Bool) (n : ℕ) (conns : List Conn) (s : State)
    → Reachable check_valid n conns s
    → n ≤ length conns
    → Perm (places (s.channel ++ held s.workers)) (places (placed 0 conns))
      × (idle s.workers ≤ length s.channel)
workers_lem check_valid n conns s r small =
    let w = Reachable-Whole check_valid n conns r in
    (w.same_places, omega (arith, w.all_conns, w.all_workers, held-idle s.workers))
