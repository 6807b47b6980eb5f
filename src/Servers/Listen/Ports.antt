-- ===== src/Servers/Listen/Ports.antt =====
-- The listeners of a server.
use go_http_benchmark.Prelude.{
  ◌≡◌, refl, List, [], ◌∷◌, Option, none, some, Bytes, map, ◌⊎◌, inl, inr, Option-cases,
}
use go_http_benchmark.Config.Ports.{get_framework_server_addrs}
use go_http_benchmark.Servers.Listen.{
  Listener, Listening, listening, failed_at, in_front, listen_each, listen_all,
}

-- One listener for each address, or an address that has none.
abbrev pub IsListening : (Bytes → Option Listener) → List Bytes → Listening → Type 0
IsListening listen addrs l =
    ((ls : List Listener) × (l ≡ listening ls) × (map listen addrs ≡ map some ls))
    ⊎ ((addr : Bytes) × (l ≡ failed_at addr) × (listen addr ≡ none))

in_front-IsListening :
    (listen : Bytes → Option Listener) (addr : Bytes) (addrs : List Bytes) (l : Listener)
    (rest : Listening)
    → listen addr ≡ some l
    → IsListening listen addrs rest
    → IsListening listen (addr ∷ addrs) (in_front l rest)
in_front-IsListening listen addr addrs l rest e (inl (ls, h, same)) =
    inl (l ∷ ls, rw h refl, rw (e, same) refl)
in_front-IsListening listen addr addrs l rest e (inr (bad, h, fails)) = inr (bad, rw h refl, fails)

listen_each-IsListening :
    (listen : Bytes → Option Listener) (addrs : List Bytes)
    → IsListening listen addrs (listen_each listen addrs)
listen_each-IsListening listen [] = inl ([], unfold listen_each in refl, refl)
listen_each-IsListening listen (addr ∷ addrs) = elim (Option-cases (listen addr)) [
  | inl e ↦ inr (addr, fails e, e)
  | inr (l, e) ↦
      rw (works l e)
        (in_front-IsListening listen addr addrs l _ e (listen_each-IsListening listen addrs))
]
  where
    fails : listen addr ≡ none → listen_each listen (addr ∷ addrs) ≡ failed_at addr
    fails e = unfold listen_each in rw (e, listen_each) refl

    works :
        (l : Listener)
        → listen addr ≡ some l
        → listen_each listen (addr ∷ addrs) ≡ in_front l (listen_each listen addrs)
    works l e = unfold listen_each in rw (e, listen_each) refl

-- A server of a known framework has a listener on each of the framework's addresses, in their
-- order, or does not start, and then there is an address that it could not listen on.
pub listen_all-IsListening :
    (listen : Bytes → Option Listener) (framework : Bytes) (addrs : List Bytes)
    → get_framework_server_addrs framework ≡ some addrs
    → IsListening listen addrs (listen_all listen framework)
unfolding listen_all
listen_all-IsListening listen framework addrs h = rw h (listen_each-IsListening listen addrs)
