-- ===== src/Config/LocalHost.antt =====
-- config/pssource.go: whether a host is this machine.
use go_http_benchmark.Prelude.{
  Bool, true, false, ◌||◌, List, [], ◌∷◌, Option, none, some, Bytes, if◌then◌else◌,
}
use go_http_benchmark.Config.Dials.{is_bracket}
use go_http_benchmark.Config.Ports.{among}
use go_http_benchmark.Golib.Text.{trim}

-- The network of this machine: `net.ParseIP`, `net.LookupIP`, the addresses of the interfaces, and
-- what the net package says of an address.
pub record Network (Ip : Type 0) : Type 0 where
  pub parse_ip : Bytes → Option Ip
  pub lookup_ip : Bytes → Option (List Ip)
  pub interface_addrs : Option (List Ip)
  pub is_loopback : Ip → Bool
  pub is_unspecified : Ip → Bool
  pub ip_text : Ip → Bytes

module _ {Ip : Type 0} (network : Network Ip) where
  abbrev texts : List Ip → List Bytes
  texts [] = []
  texts (a ∷ as') = network.ip_text a ∷ texts as'

  -- `localAddrs`; a nil map has no key.
  unfoldable pub local_addrs : List Bytes
  local_addrs = elim network.interface_addrs [ none ↦ [] | some as' ↦ texts as' ]

  abbrev pub any_local : List Ip → Bool
  any_local [] = false
  any_local (ip ∷ ips) =
      if network.is_loopback ip || network.is_unspecified ip
      then true
      else if among (network.ip_text ip) local_addrs
      then true
      else any_local ips

  abbrev resolved : Option (List Ip) → Bool
  resolved none = false
  resolved (some ips) = any_local ips

  abbrev parsed : Bytes → Option Ip → Bool
  parsed host (some ip) = any_local (ip ∷ [])
  parsed host none = resolved (network.lookup_ip host)

  abbrev of_host : Bytes → Bool
  of_host [] = false
  of_host (c ∷ s) = parsed (c ∷ s) (network.parse_ip (c ∷ s))

  -- `IsLocalHost`.
  unfoldable pub is_local_host : Bytes → Bool
  unfolding trim local_addrs
  is_local_host host = of_host (trim is_bracket host)
