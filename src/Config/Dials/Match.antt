-- ===== src/Config/Dials/Match.antt =====
-- The addresses of the client and of the server.
use go_http_benchmark.Prelude.{
  ℕ, ◌≡◌, refl, ap, true, false, List, [], ◌∷◌, ◌++◌, Option, none, some, Bytes, codes, map, All,
  inl, inr, Bool-cases, append_assoc, arith,
}
use go_http_benchmark.Config.Dials.{join_host_port, is_bracket, get_framework_benchmark_addrs}
use go_http_benchmark.Config.Ports.{
  get_framework_benchmark_ports, get_framework_server_addrs, url_host, on_some, listen_text,
}
use go_http_benchmark.Golib.Strconv.{itoa}
use go_http_benchmark.Golib.Text.{contains_byte, trim, has_prefix}
use go_http_benchmark.Golib.Text.Trim.{trim_keep, trim_around}

-- A host without brackets, or an IPv6 address in brackets.
pub data IsHost : Bytes → Type 0 where
  plain : (host : Bytes) → All (λ c. is_bracket c ≡ false) host → IsHost host
  bracketed :
      (host : Bytes)
      → All (λ c. is_bracket c ≡ false) host
      → contains_byte host b':' ≡ true
      → IsHost (b'[' ∷ (host ++ codes "]"))

no_prefix :
    (host : Bytes) → All (λ c. is_bracket c ≡ false) host → has_prefix host (codes "[") ≡ false
unfolding has_prefix
no_prefix [] h = refl
no_prefix (c ∷ s) (h, hs) = ground arith

joined_plain :
    (host port : Bytes)
    → All (λ c. is_bracket c ≡ false) host
    → join_host_port (trim is_bracket host) port ≡ url_host host ++ (b':' ∷ port)
unfolding join_host_port url_host
joined_plain host port h =
    rw (trim_keep is_bracket host h, no_prefix host h)
      (elim (Bool-cases (contains_byte host b':')) [
        | inl t ↦ rw (t, append_assoc host (codes "]") (b':' ∷ port)) refl
        | inr t ↦ rw t refl
      ])

contains-append : (s t : Bytes) (b : ℕ) → contains_byte s b ≡ true → contains_byte (s ++ t) b ≡ true
contains-append [] t b h = cc
contains-append (c ∷ s) t b h = ground (arith, contains-append s t b)

joined_bracketed :
    (host port : Bytes)
    → All (λ c. is_bracket c ≡ false) host
    → contains_byte host b':' ≡ true
    → join_host_port (trim is_bracket (b'[' ∷ (host ++ codes "]"))) port
      ≡ url_host (b'[' ∷ (host ++ codes "]")) ++ (b':' ∷ port)
unfolding join_host_port url_host has_prefix
joined_bracketed host port h t =
    rw (trim_around is_bracket b'[' host b']' refl h refl, t)
      (ground (arith, append_assoc host (codes "]") (b':' ∷ port)))

-- The address for a port is the host that the requests name, and the port.
joined :
    (ip port : Bytes)
    → IsHost ip
    → join_host_port (trim is_bracket ip) port ≡ url_host ip ++ (b':' ∷ port)
joined ip port (plain host h) = joined_plain host port h
joined ip port (bracketed host h t) = joined_bracketed host port h t

map-joined :
    (ip : Bytes) (ports : List ℕ)
    → IsHost ip
    → map (λ port. join_host_port (trim is_bracket ip) (itoa port)) ports
      ≡ map (λ addr. url_host ip ++ addr) (map listen_text ports)
map-joined ip [] h = refl
map-joined ip (p ∷ ps) h = rw (joined ip (itoa p) h, map-joined ip ps h) refl

-- For a host without brackets, or an IPv6 address in brackets, a client dials exactly the addresses
-- that the framework's server listens on, in the same order: before each it puts the host that it
-- names in its requests, with brackets around an IPv6 address. For a framework that is not known
-- there are none.
pub get_framework_benchmark_addrs_lem :
    (framework ip : Bytes)
    → IsHost ip
    → get_framework_benchmark_addrs framework ip
      ≡ on_some (map (λ addr. url_host ip ++ addr)) (get_framework_server_addrs framework)
unfolding get_framework_benchmark_addrs get_framework_server_addrs
get_framework_benchmark_addrs_lem framework ip h = go (get_framework_benchmark_ports framework)
  where
    go :
        (o : Option (List ℕ))
        → on_some (map (λ port. join_host_port (trim is_bracket ip) (itoa port))) o
          ≡ on_some (map (λ addr. url_host ip ++ addr)) (on_some (map listen_text) o)
    go none = refl
    go (some ports) = ap some (map-joined ip ports h)
