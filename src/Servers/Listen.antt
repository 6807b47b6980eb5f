-- ===== src/Servers/Listen.antt =====
-- frameworks/frameworks.go: the listeners of a server.
pub mod Ports
use go_http_benchmark.Prelude.{
  Bool, true, false, List, [], ◌∷◌, Option, none, some, Bytes, ◌||◌, if◌then◌else◌,
}
use go_http_benchmark.Config.Ports.{get_framework_server_addrs}

-- A listener: its address, whether the port is shared, and whether `noDelayListener` is around it.
pub record Listener : Type 0 where
  pub addr : Bytes
  pub reuse : Bool
  pub delayed : Bool

-- The flags `-nodelay` and `-reuseport`.
pub record Flags : Type 0 where
  pub nodelay : Bool
  pub reuse : Bool

-- `listen`: `binds` says of an address, and of whether the port is shared, that it can be bound;
-- `none` is an error.
unfoldable pub listen : (Bytes → Bool → Bool) → Flags → Bytes → Option Listener
listen binds flags addr =
    if binds addr flags.reuse
    then some (record { addr = addr; reuse = flags.reuse; delayed = false })
    else none

-- `Listen`.
abbrev pub wrapped : Flags → Option Listener → Option Listener
wrapped flags none = none
wrapped flags (some l) = if flags.nodelay then some l else some (record l { delayed = true })

unfoldable pub listen_wrapped : (Bytes → Bool → Bool) → Flags → Bytes → Option Listener
unfolding listen
listen_wrapped binds flags addr = wrapped flags (listen binds flags addr)

-- The listeners of a server, or the address at which it ends with Fatalf.
pub data Listening : Type 0 where
  listening : List Listener → Listening
  failed_at : Bytes → Listening
  no_addrs : Listening

abbrev in_front : Listener → Listening → Listening
in_front l (listening ls) = listening (l ∷ ls)
in_front l (failed_at addr) = failed_at addr
in_front l no_addrs = no_addrs

-- The loop of `listenAll`, by one of the two ways to listen.
unfoldable pub listen_each : (Bytes → Option Listener) → List Bytes → Listening
listen_each listen [] = listening []
listen_each listen (addr ∷ addrs) = elim (listen addr) [
  | none ↦ failed_at addr
  | some l ↦ in_front l (listen_each listen addrs)
]

abbrev listen_addrs : (Bytes → Option Listener) → Option (List Bytes) → Listening
listen_addrs listen none = no_addrs
listen_addrs listen (some addrs) = listen_each listen addrs

-- `listenAll`; `ServerAddrs` ends with Fatalf where the framework is not known.
unfoldable pub listen_all : (Bytes → Option Listener) → Bytes → Listening
unfolding listen_each get_framework_server_addrs
listen_all listen framework = listen_addrs listen (get_framework_server_addrs framework)
