-- ===== src/Connections/Retries.antt =====
-- What comes of the dials of one connection.
use go_http_benchmark.Prelude.{
  ℕ, zero, suc, ◌+◌, ◌≤◌, ◌<◌, ◌≡◌, ◌⊎◌, inl, inr, refl, subst, false, List, [], ◌∷◌, ◌++◌, none,
  some, Option, Bytes, arith,
}
use go_http_benchmark.Golib.Reader.{Reader}
use go_http_benchmark.Connections.{
  Conn, Attempt, Dialed, dialed, not_dialed, DialError, dial, dial_from, do_once, Done, server_addr,
  appended,
}

Dialed-cases :
    (d : Dialed) → ((r : Reader) × (d ≡ dialed r)) ⊎ ((e : DialError) × (d ≡ not_dialed e))
Dialed-cases (dialed r) = inl (r, refl)
Dialed-cases (not_dialed e) = inr (e, refl)

module _ (size : ℕ) (addrs : List Bytes) (index : ℕ → ℕ) (network : ℕ → Bytes → Attempt) where
  abbrev pub tried : ℕ → Dialed
  tried i = dial size (network i (server_addr addrs (index i)))

  -- The dial of a round failed.
  abbrev pub Failed : ℕ → Type 0
  Failed i = (e : DialError) × (tried i ≡ not_dialed e)

  -- Either a dial worked, the first one that did, and its connection is behind those there were,
  -- or none of the dials worked and there is an error and no new connection.
  abbrev pub IsDone : ℕ → ℕ → List Conn → Done → Type 0
  IsDone from to conns d =
      ((k : ℕ) × (r : Reader) × (from ≤ k)
        × (k < to)
        × (tried k ≡ dialed r)
        × ((j : ℕ) → from ≤ j → j < k → Failed j)
        × (d.error ≡ none)
        × (d.made ≡ suc k)
        × (d.conns
            ≡ conns
              ++ record { addr = server_addr addrs (index k); reader = r; broken = false } ∷ []))
      ⊎ (((j : ℕ) → from ≤ j → j < to → Failed j)
          × ((e : DialError) × (d.error ≡ some e))
          × (d.made ≡ to)
          × (d.conns ≡ conns))

  dial_from-dialed :
      (left i : ℕ) (err : Option DialError) (conns : List Conn) (r : Reader)
      → tried i ≡ dialed r
      → dial_from size addrs index network (suc left) i err conns
        ≡ appended conns (server_addr addrs (index i)) r (suc i)
  unfolding dial_from
  dial_from-dialed left i err conns r h = rw (h, dial_from) refl

  dial_from-not_dialed :
      (left i : ℕ) (err : Option DialError) (conns : List Conn) (e : DialError)
      → tried i ≡ not_dialed e
      → dial_from size addrs index network (suc left) i err conns
        ≡ dial_from size addrs index network left (suc i) (some e) conns
  unfolding dial_from
  dial_from-not_dialed left i err conns e h = rw (h, dial_from) refl

  -- A round that failed, in front of those behind it.
  also :
      (i to : ℕ)
      → Failed i
      → ((j : ℕ) → suc i ≤ j → j < to → Failed j)
      → (j : ℕ) → i ≤ j
      → j < to
      → Failed j
  also i to f h j l m = elim (at_or_behind i j l) [ inl e ↦ subst Failed e f | inr l' ↦ h j l' m ]
    where
      at_or_behind : (i j : ℕ) → i ≤ j → (i ≡ j) ⊎ (suc i ≤ j)
      at_or_behind i j l = ground arith

  -- What the rounds behind a failed one come to, that round included.
  behind :
      (i left : ℕ) (conns : List Conn) (d : Done)
      → Failed i
      → IsDone (suc i) (suc i + left) conns d
      → IsDone i (i + suc left) conns d
  behind i left conns d f (inl (k, r, from, to, h, before, error, made, added)) =
      inl (k, r, omega arith, omega arith, h, also i k f before, error, made, added)
  behind i left conns d f (inr (all, error, made, same)) =
      inr (λ j l m. also i (suc i + left) f all j l (omega arith), error, omega arith, same)

  worked :
      (i left : ℕ) (conns : List Conn) (r : Reader)
      → tried i ≡ dialed r
      → IsDone i (i + suc left) conns (appended conns (server_addr addrs (index i)) r (suc i))
  worked i left conns r h =
      inl (i, r, omega arith, omega arith, h, λ j l m. absurd (omega arith), refl, refl, refl)

  dial_from-IsDone :
      (left i : ℕ) (e : DialError) (conns : List Conn)
      → IsDone i (i + left) conns (dial_from size addrs index network left i (some e) conns)
  dial_from-IsDone zero i e conns =
      unfold dial_from in inr (λ j l m. absurd (omega arith), (e, refl), omega arith, refl)
  dial_from-IsDone (suc left) i e conns = elim (Dialed-cases (tried i)) [
    | inl (r, h) ↦ rw (dial_from-dialed left i (some e) conns r h) (worked i left conns r h)
    | inr (x, h) ↦
        rw (dial_from-not_dialed left i (some e) conns x h)
          (behind i left conns _ (x, h) (dial_from-IsDone left (suc i) x conns))
  ]

  -- With at least one round, doOnce appends one connection, that of the first dial that works, at
  -- the address of its round, unbroken, and dials no more; or, where each of the rounds fails, it
  -- has made them all, returns an error and appends none.
  pub do_once-IsDone :
      (retries : ℕ) (conns : List Conn)
      → IsDone 0 (suc retries) conns (do_once size addrs index network (suc retries) conns)
  unfolding do_once
  do_once-IsDone retries conns =
      let e : 0 + suc retries ≡ suc retries = omega arith in
      subst (λ n. IsDone 0 n conns (dial_from size addrs index network (suc retries) 0 none conns))
        e
        (elim (Dialed-cases (tried 0)) [
          | inl (r, h) ↦ rw (dial_from-dialed retries 0 none conns r h) (worked 0 retries conns r h)
          | inr (x, h) ↦
              rw (dial_from-not_dialed retries 0 none conns x h)
                (behind 0 retries conns _ (x, h) (dial_from-IsDone retries 1 x conns))
        ])
