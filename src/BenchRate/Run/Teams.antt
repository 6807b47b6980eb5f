-- ===== src/BenchRate/Run/Teams.antt =====
-- How the connections are dealt out to the teams.
use go_http_benchmark.Prelude.{
  ℕ, zero, suc, ◌+◌, ◌*◌, ◌%◌, ◌<◌, ◌≡◌, refl, ap, ◌∙◌, append_assoc, append-nil, List, [], ◌∷◌,
  ◌++◌, length, arith, replicate, length-append, length-replicate, subst,
}
use native.Mathlib.Nat.{mod-eq_of_lt, add-mul-mod_self_right, add_comm}
use native.Mathlib.Decide.{dec_lt}
use go_http_benchmark.Prelude.{perm_front, perm_keep}
use mathlib.Core.List.{Perm}
use mathlib.Core.List.Perm
use go_http_benchmark.BenchRate.Run.{join_team, deal, conn_teams}

turn : (q n r : ℕ) → r < n → (q * n + r) % n ≡ r
turn q n r h = rw (add_comm (q * n) r, add-mul-mod_self_right r q n) (mod-eq_of_lt h)

module _ {ℓ} {A : Type ℓ} where
  -- The members of all the teams, one team behind the other.
  abbrev pub members : List (List A) → List A
  members [] = []
  members (team ∷ teams) = team ++ members teams

  length-join_team :
      (i : ℕ) (c : A) (teams : List (List A)) → length (join_team i c teams) ≡ length teams
  unfolding join_team
  length-join_team i c [] = refl
  length-join_team zero c (team ∷ teams) = refl
  length-join_team (suc i) c (team ∷ teams) = ap suc (length-join_team i c teams)

  members-join_team :
      (i : ℕ) (c : A) (teams : List (List A))
      → i < length teams
      → Perm (members (join_team i c teams)) (c ∷ members teams)
  unfolding join_team
  members-join_team i c [] h = absurd (omega arith)
  members-join_team zero c (team ∷ teams) h =
      rw (append_assoc team (c ∷ []) (members teams)) (perm_front c team (members teams))
  members-join_team (suc i) c (team ∷ teams) h =
      Perm.trans (perm_keep team (members-join_team i c teams (omega arith)))
        (perm_front c team (members teams))

  -- The first `r` teams have one member more than `q`, and the others `q`.
  abbrev Level : ℕ → ℕ → List (List A) → Type 0
  Level q r [] = Unit
  Level q zero (team ∷ teams) = (length team ≡ q) × Level q zero teams
  Level q (suc r) (team ∷ teams) = (length team ≡ suc q) × Level q r teams

  join_team-Level :
      (q r : ℕ) (c : A) (teams : List (List A))
      → r < length teams
      → Level q r teams
      → Level q (suc r) (join_team r c teams)
  unfolding join_team
  join_team-Level q r c [] l h = tt
  join_team-Level q zero c (team ∷ teams) l (h, hs) =
      (omega (arith, length-append team (c ∷ [])), hs)
  join_team-Level q (suc r) c (team ∷ teams) l (h, hs) =
      (h, join_team-Level q r c teams (omega arith) hs)

  all-Level :
      (q : ℕ) (teams : List (List A)) → Level q (length teams) teams → Level (suc q) zero teams
  all-Level q [] h = tt
  all-Level q (team ∷ teams) (h, hs) = (h, all-Level q teams hs)

  -- What dealing out `cs` to `n` teams leaves.
  record Dealt (n : ℕ) (cs : List A) (before after : List (List A)) : Type ℓ where
    pub same_number : length after ≡ n
    pub all_there : Perm (members after) (cs ++ members before)
    pub level : (q : ℕ) × (r : ℕ) × Level q r after

empty-Level {ℓ} : (A : Type ℓ) (n : ℕ) → Level {A = A} 0 zero (replicate n [])
empty-Level A zero = tt
empty-Level A (suc n) = (refl, empty-Level A n)

members-empty {ℓ} : (A : Type ℓ) (n : ℕ) → members {A = A} (replicate n []) ≡ []
members-empty A zero = refl
members-empty A (suc n) = members-empty A n

module _ {ℓ} {A : Type ℓ} where
  join_team-Dealt :
      {n : ℕ} (i : ℕ) (c : A) {cs : List A} (teams : List (List A)) {after : List (List A)}
      → i < length teams
      → Dealt n cs (join_team i c teams) after
      → Dealt n (c ∷ cs) teams after
  join_team-Dealt i c {cs} teams h d = record {
    same_number = d.same_number;
    all_there = Perm.trans d.all_there (
        Perm.trans (perm_keep cs (members-join_team i c teams h))
          (perm_front c cs (members teams)));
    level = d.level;
  }

  deal-Dealt :
      (n i q r : ℕ) (cs : List A) (teams : List (List A))
      → length teams ≡ n
      → i ≡ q * n + r
      → r < n
      → Level q r teams
      → Dealt n cs teams (deal n i cs teams)
  unfolding deal
  deal-Dealt n i q r [] teams e m l h = record {
    same_number = e;
    all_there = Perm.refl (members teams);
    level = (q, r, h);
  }
  deal-Dealt n i q r (c ∷ cs) teams e m l h =
      let at : (i % n) ≡ r = rw m (turn q n r l) in
      let e' : length (join_team r c teams) ≡ n = length-join_team r c teams ∙ e in
      let h' : Level q (suc r) (join_team r c teams) =
        join_team-Level q r c teams (omega arith) h in
      join_team-Dealt (i % n) c teams (omega arith) (
        rw at (elim (dec_lt (suc r) n) [
          | yes p ↦ deal-Dealt n (suc i) q (suc r) cs (join_team r c teams) e' (omega arith) p h'
          | no p ↦
              deal-Dealt n (suc i) (suc q) zero cs (join_team r c teams) e' (omega arith)
                (omega arith)
                (all-Level q (join_team r c teams)
                  (subst (λ (t : ℕ). Level q t (join_team r c teams)) (omega arith) h'))
        ]))

-- `cs` is shared out to `n` teams, to each its even part, in some order.
abbrev pub IsShared {ℓ} : {A : Type ℓ} (n : ℕ) (cs : List A) → List (List A) → Type ℓ
IsShared n cs teams =
    (length teams ≡ n) × Perm (members teams) cs × ((q : ℕ) × (r : ℕ) × Level q r teams)

-- However many connections there are, Run deals them out to as many teams as it has a concurrency, that
-- is at least 1: each connection is in one team and once, and the sizes of two teams differ by at
-- most one, the larger ones first.
pub conn_teams-IsShared {ℓ} :
    {A : Type ℓ} (n : ℕ) (cs : List A) → 0 < n → IsShared n cs (conn_teams n cs)
unfolding conn_teams
conn_teams-IsShared {A} n cs h =
    let d =
      deal-Dealt n 0 0 0 cs (replicate n []) (length-replicate n []) (omega arith) h
        (empty-Level A n) in
    (
      d.same_number,
      subst (λ (all : List A). Perm (members (deal n 0 cs (replicate n []))) all)
          (ap (λ (t : List A). cs ++ t) (members-empty A n) ∙ append-nil cs) d.all_there,
      d.level,
    )
