-- ===== src/Config/Ports/Blocks.antt =====
-- The blocks of ports, and the addresses in URLs.
use go_http_benchmark.Prelude.{
  ℕ, ◌+◌, ◌*◌, ◌≡◌, refl, ◌⊎◌, subst, true, false, List, [], ◌∷◌, none, some, Bytes, equal,
  equal_iff, arith, All, map, Bool-cases, inl, inr,
}
use go_http_benchmark.Golib.Strconv.{atoi, parse_int, parse_digits, digit_value}
use go_http_benchmark.Golib.Text.{split, index_byte, has_prefix}
use go_http_benchmark.Config.Ports.{
  ports, framework_list, at, among, get_framework_benchmark_ports, framework_control_port,
  count_from, url_host,
}

-- Fifty benchmark ports at the start of a block of a hundred, and the control port behind them.
abbrev pub Block : Bytes → ℕ → Type 0
Block framework k =
    (get_framework_benchmark_ports framework ≡ some (count_from (100 * k + 1) 50))
    × (framework_control_port framework ≡ some (100 * k + 51))

abbrev pub HasBlock : Bytes → Type 0
HasBlock framework = (k : ℕ) × Block framework k

ports_run : Unit {0}
unfolding get_framework_benchmark_ports framework_control_port split atoi parse_int parse_digits
    digit_value index_byte count_from
ports_run = tt

blocks : All HasBlock framework_list
unfolding ports_run
blocks = (
  (104, (refl, refl)),
  (
    (105, (refl, refl)),
    (
      (106, (refl, refl)),
      (
        (107, (refl, refl)),
        (
          (100, (refl, refl)),
          (
            (101, (refl, refl)),
            (
              (108, (refl, refl)),
              (
                (102, (refl, refl)),
                (
                  (109, (refl, refl)),
                  (
                    (110, (refl, refl)),
                    (
                      (112, (refl, refl)),
                      (
                        (111, (refl, refl)),
                        ((114, (refl, refl)), ((103, (refl, refl)), ((113, (refl, refl)), tt))),
                      ),
                    ),
                  ),
                ),
              ),
            ),
          ),
        ),
      ),
    ),
  ),
)

among-All {κ} :
    (P : Bytes → Type κ) (f : Bytes) (ns : List Bytes) → All P ns → among f ns ≡ true → P f
among-All P f [] h e = absurd cc
among-All P f (n ∷ ns) (h, hs) e = elim (Bool-cases (equal n f)) [
  | inl q ↦ subst P ((equal_iff n f).0 q) h
  | inr q ↦ among-All P f ns hs (ground (arith, e, q))
]

at-none :
    (key : Bytes) (es : List (Bytes × Bytes))
    → among key (map (λ e. e.0) es) ≡ false
    → at key es ≡ none
at-none key [] h = refl
at-none key ((k, v) ∷ es) h = ground (arith, at-none key es)

-- Every framework in FrameworkList has a block of a hundred ports: fifty benchmark ports at its
-- start and its control port right behind them. Of any other name no ports are known.
pub framework_ports_lem :
    (framework : Bytes)
    → ((among framework framework_list ≡ true) × HasBlock framework)
      ⊎ ((among framework framework_list ≡ false)
          × (get_framework_benchmark_ports framework ≡ none))
unfolding get_framework_benchmark_ports
framework_ports_lem framework = elim (Bool-cases (among framework framework_list)) [
  | inl e ↦ inl (e, among-All HasBlock framework framework_list blocks e)
  | inr e ↦ inr (e, rw (at-none framework ports e) refl)
]

-- The brackets of a host in a URL are put in once: a host that went through urlHost is left as it
-- is by a second call.
pub url_host_twice : (ip : Bytes) → url_host (url_host ip) ≡ url_host ip
unfolding url_host has_prefix
url_host_twice ip = ground arith
