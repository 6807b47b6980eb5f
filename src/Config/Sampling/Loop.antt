-- ===== src/Config/Sampling/Loop.antt =====
-- The samples that the loop keeps.
use go_http_benchmark.Prelude.{
  ℕ, suc, ◌≤◌, ◌≡◌, ◌⊎◌, inl, inr, refl, ap, List, [], ◌∷◌, none, some, leb, leb→le, Bool-cases,
}
use go_http_benchmark.Config.Sampling.{Tick, missed, read, run_from, run}

-- The CPU samples among the ticks.
abbrev pub read_of : {A B : Type 0} → List (Tick A B) → List A
read_of [] = []
read_of (missed ∷ ts) = read_of ts
read_of (read c m ∷ ts) = c ∷ read_of ts

-- As many ticks missed in a row, from `errors` on, as make the loop give up.
abbrev pub GivesUp : {A B : Type 0} → ℕ → List (Tick A B) → Type 0
GivesUp errors [] = ⊥
GivesUp errors (missed ∷ ts) = (5 ≤ suc errors) ⊎ GivesUp (suc errors) ts
GivesUp errors (read c m ∷ ts) = GivesUp 0 ts

module _ {A B : Type 0} where
  run_from_cpu :
      (errors : ℕ) (ts : List (Tick A B))
      → ¬ GivesUp errors ts
      → (run_from errors ts).cpu ≡ read_of ts
  unfolding run_from
  run_from_cpu errors [] h = refl
  run_from_cpu errors (missed ∷ ts) h = elim (Bool-cases (leb 5 (suc errors))) [
    | inl e ↦ absurd (h (inl (leb→le 5 (suc errors) e)))
    | inr e ↦ rw (e, run_from) (run_from_cpu (suc errors) ts (λ g. h (inr g)))
  ]
  run_from_cpu errors (read c none ∷ ts) h = ap (λ l. c ∷ l) (run_from_cpu 0 ts h)
  run_from_cpu errors (read c (some m) ∷ ts) h = ap (λ l. c ∷ l) (run_from_cpu 0 ts h)

  -- Unless five ticks in a row are missed, the sampler keeps every CPU sample up to its stop, in the
  -- order they were taken, however many single ticks are missed.
  pub run_lem : (ts : List (Tick A B)) → ¬ GivesUp 0 ts → (run ts).cpu ≡ read_of ts
  unfolding run
  run_lem ts h = run_from_cpu 0 ts h
