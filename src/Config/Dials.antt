-- ===== src/Config/Dials.antt =====
-- config/config.go: the addresses that a client dials.
pub mod Match
use go_http_benchmark.Prelude.{
  ℕ, Bool, ◌||◌, List, [], ◌∷◌, ◌++◌, Option, none, some, Bytes, codes, ◌==◌, if◌then◌else◌, map,
}
use go_http_benchmark.Config.Ports.{get_framework_benchmark_ports, on_some}
use go_http_benchmark.Golib.Strconv.{itoa}
use go_http_benchmark.Golib.Text.{contains_byte, trim}

-- `net.JoinHostPort`.
unfoldable pub join_host_port : Bytes → Bytes → Bytes
join_host_port host port =
    if contains_byte host b':' then b'[' ∷ (host ++ (codes "]:" ++ port)) else host ++ (b':' ∷ port)

-- The bytes of the cutset "[]".
abbrev pub is_bracket : ℕ → Bool
is_bracket c = c == b'[' || c == b']'

-- `GetFrameworkBenchmarkAddrs`; `none` is its error.
unfoldable pub get_framework_benchmark_addrs : Bytes → Bytes → Option (List Bytes)
unfolding get_framework_benchmark_ports itoa trim join_host_port
get_framework_benchmark_addrs framework ip =
    on_some (map (λ port. join_host_port (trim is_bracket ip) (itoa port)))
      (get_framework_benchmark_ports framework)
