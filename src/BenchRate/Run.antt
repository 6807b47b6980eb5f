-- ===== src/BenchRate/Run.antt =====
-- benchcli-go/benchrate/benchrate.go: the connections of a run and its teams.
pub mod Teams
pub mod Snapshot
pub mod Usable
use go_http_benchmark.Prelude.{
  ℕ, zero, suc, ◌+◌, ◌%◌, Bool, true, false, List, [], ◌∷◌, ◌++◌, Option, none, some, Bytes, leb,
  replicate, if◌then◌else◌,
}
use go_http_benchmark.Connections.{Conn, Attempt, redial, DialError}

abbrev unless_failed : Conn → Option DialError → List Conn → List Conn
unless_failed c none cs = c ∷ cs
unless_failed c (some e) cs = cs

-- The loop over `br.Conns`, from the `i`th on: a broken connection is redialed, and left out where
-- that fails. `network i` is what comes of the redial of the `i`th.
unfoldable pub usable : (ℕ → Attempt) → ℕ → List Conn → List Conn
unfolding redial
usable network i [] = []
usable network i (c ∷ cs) =
    let rest = usable network (suc i) cs in
    if c.broken
    then (let q = redial c (network i) in unless_failed q.conn q.error rest)
    else c ∷ rest

-- `connTeams[i] = append(connTeams[i], c)`.
unfoldable pub join_team {ℓ} : {A : Type ℓ} → ℕ → A → List (List A) → List (List A)
join_team i c [] = []
join_team zero c (team ∷ teams) = (team ++ c ∷ []) ∷ teams
join_team (suc i) c (team ∷ teams) = team ∷ join_team i c teams

-- The loop that deals the connections out, from the `i`th on, to `n` teams.
unfoldable pub deal {ℓ} : {A : Type ℓ} → ℕ → ℕ → List A → List (List A) → List (List A)
unfolding join_team
deal n i [] teams = teams
deal n i (c ∷ cs) teams = deal n (suc i) cs (join_team (i % n) c teams)

-- `connTeams`, of `n` teams.
unfoldable pub conn_teams {ℓ} : {A : Type ℓ} → ℕ → List A → List (List A)
unfolding deal
conn_teams n cs = deal n 0 cs (replicate n [])
