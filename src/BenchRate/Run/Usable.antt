-- ===== src/BenchRate/Run/Usable.antt =====
-- The connections that a run of BenchRate starts on.
use go_http_benchmark.Prelude.{
  ℕ, suc, ◌≡◌, refl, Bool, true, false, List, [], ◌∷◌, Option, none, some, All, if◌then◌else◌,
}
use go_http_benchmark.BenchRate.Run.{usable, unless_failed}
use go_http_benchmark.Connections.{
  Conn, Attempt, DialError, Dialed, dialed, not_dialed, redial, redialed, dial,
}

abbrev IsWorking : Conn → Type 0
IsWorking c = c.broken ≡ false

redialed-IsWorking :
    (c : Conn) (d : Dialed) → (redialed c d).error ≡ none → IsWorking (redialed c d).conn
redialed-IsWorking c (dialed r) h = refl
redialed-IsWorking c (not_dialed e) h = absurd cc

unless_failed-All :
    (c : Conn) (o : Option DialError) (cs : List Conn)
    → (o ≡ none → IsWorking c)
    → All IsWorking cs
    → All IsWorking (unless_failed c o cs)
unless_failed-All c none cs h hs = (h refl, hs)
unless_failed-All c (some e) cs h hs = hs

if-All :
    (b : Bool) (xs ys : List Conn)
    → (b ≡ true → All IsWorking xs)
    → (b ≡ false → All IsWorking ys)
    → All IsWorking (if b then xs else ys)
if-All true xs ys h k = h refl
if-All false xs ys h k = k refl

-- Whatever comes of the redials, none of the connections that a run starts on is broken.
pub usable-All :
    (network : ℕ → Attempt) (i : ℕ) (cs : List Conn) → All IsWorking (usable network i cs)
unfolding usable redial
usable-All network i [] = tt
usable-All network i (c ∷ cs) =
    let rest = usable-All network (suc i) cs in
    let q = redial c (network i) in
    if-All c.broken (unless_failed q.conn q.error (usable network (suc i) cs))
      (c ∷ usable network (suc i) cs)
      (λ b.
        unless_failed-All q.conn q.error (usable network (suc i) cs)
          (redialed-IsWorking c (dial c.reader.size (network i))) rest)
      (λ b. (b, rest))
