-- ===== src/Config/Ports.antt =====
-- config/config.go: the frameworks and the ports of their servers.
pub mod Blocks
use go_http_benchmark.Prelude.{
  ℕ, zero, suc, ◌+◌, ◌-◌, Bool, true, false, not, ◌&&◌, List, [], ◌∷◌, ◌++◌, Option, none, some,
  Bytes, codes, equal, if◌then◌else◌, map, ℤ, pos, negsuc, leb,
}
use Prim.Native.String.{String}
use go_http_benchmark.Golib.Strconv.{itoa, atoi}
use go_http_benchmark.Golib.Text.{split, contains_byte, has_prefix, trim}

abbrev entry : String → String → Bytes × Bytes
entry name value = (codes name, codes value)

-- `Ports`.
abbrev pub ports : List (Bytes × Bytes)
ports =
    entry "axum" "10401:10450"
    ∷ entry "beego" "10501:10550"
    ∷ entry "chi" "10601:10650"
    ∷ entry "echo" "10701:10750"
    ∷ entry "fasthttp" "10001:10050"
    ∷ entry "fib" "10101:10150"
    ∷ entry "fiber" "10801:10850"
    ∷ entry "gin" "10201:10250"
    ∷ entry "goji" "10901:10950"
    ∷ entry "gorillamux" "11001:11050"
    ∷ entry "hertz" "11201:11250"
    ∷ entry "httprouter" "11101:11150"
    ∷ entry "nbio" "11401:11450"
    ∷ entry "nethttp" "10301:10350"
    ∷ entry "workflow" "11301:11350"
    ∷ []

-- `FrameworkList`.
abbrev pub framework_list : List Bytes
framework_list =
    codes "axum"
    ∷ codes "beego"
    ∷ codes "chi"
    ∷ codes "echo"
    ∷ codes "fasthttp"
    ∷ codes "fib"
    ∷ codes "fiber"
    ∷ codes "gin"
    ∷ codes "goji"
    ∷ codes "gorillamux"
    ∷ codes "hertz"
    ∷ codes "httprouter"
    ∷ codes "nbio"
    ∷ codes "nethttp"
    ∷ codes "workflow"
    ∷ []

-- `Langs`.
abbrev pub langs : List (Bytes × Bytes)
langs =
    entry "axum" "rust"
    ∷ entry "beego" "go"
    ∷ entry "chi" "go"
    ∷ entry "echo" "go"
    ∷ entry "fasthttp" "go"
    ∷ entry "fib" "go"
    ∷ entry "fiber" "go"
    ∷ entry "gin" "go"
    ∷ entry "goji" "go"
    ∷ entry "gorillamux" "go"
    ∷ entry "hertz" "go"
    ∷ entry "httprouter" "go"
    ∷ entry "nbio" "go"
    ∷ entry "nethttp" "go"
    ∷ entry "workflow" "c++"
    ∷ []

-- `NoPipeline`.
abbrev pub no_pipeline : List Bytes
no_pipeline = codes "workflow" ∷ []

-- A map's value at a key.
abbrev pub at : Bytes → List (Bytes × Bytes) → Option Bytes
at key [] = none
at key ((k, v) ∷ es) = if equal k key then some v else at key es

abbrev pub among : Bytes → List Bytes → Bool
among name [] = false
among name (n ∷ ns) = if equal n name then true else among name ns

-- `SupportsPipeline`.
unfoldable pub supports_pipeline : Bytes → Bool
supports_pipeline framework = not (among framework no_pipeline)

abbrev pub or_dash : Option Bytes → Bytes
or_dash none = codes "-"
or_dash (some v) = v

-- `FrameworkLang`, a dash for a name that `Langs` does not have.
unfoldable pub framework_lang : Bytes → Bytes
framework_lang framework = or_dash (at framework langs)

-- `HasPprof`.
unfoldable pub has_pprof : Bytes → Bool
unfolding framework_lang
has_pprof framework = equal (framework_lang framework) (codes "go")

-- The ports from `i` on, as many as `n`.
unfoldable pub count_from : ℕ → ℕ → List ℕ
count_from i zero = []
count_from i (suc n) = i ∷ count_from (suc i) n

abbrev range : Option ℤ → Option ℤ → Option (List ℕ)
range (some (pos a)) (some (pos b)) = some (count_from a (suc b - a))
range a b = none

abbrev bounds : List Bytes → Option (List ℕ)
bounds (a ∷ b ∷ rest) = range (atoi a) (atoi b)
bounds parts = none

abbrev ports_in : Option Bytes → Option (List ℕ)
ports_in none = none
ports_in (some text) = bounds (split text b':')

-- `GetFrameworkBenchmarkPorts`; `none` is its error. No bound in `Ports` is negative.
unfoldable pub get_framework_benchmark_ports : Bytes → Option (List ℕ)
unfolding split atoi count_from
get_framework_benchmark_ports framework = ports_in (at framework ports)

abbrev last_of : List ℕ → ℕ
last_of [] = 0
last_of (p ∷ []) = p
last_of (p ∷ q ∷ ps) = last_of (q ∷ ps)

abbrev after_last : Option (List ℕ) → Option ℕ
after_last none = none
after_last (some ps) = some (suc (last_of ps))

-- `frameworkControlPort`.
unfoldable pub framework_control_port : Bytes → Option ℕ
unfolding get_framework_benchmark_ports
framework_control_port framework = after_last (get_framework_benchmark_ports framework)

-- `fmt.Sprintf(":%d", port)`.
abbrev pub listen_text : ℕ → Bytes
listen_text port = b':' ∷ itoa port

abbrev pub on_some {ℓ κ} : {A : Type ℓ} {B : Type κ} → (A → B) → Option A → Option B
on_some f none = none
on_some f (some a) = some (f a)

-- `GetFrameworkServerAddrs`.
unfoldable pub get_framework_server_addrs : Bytes → Option (List Bytes)
unfolding get_framework_benchmark_ports itoa
get_framework_server_addrs framework =
    on_some (map listen_text) (get_framework_benchmark_ports framework)

-- `GetFrameworkControlServerAddr`.
unfoldable pub get_framework_control_server_addr : Bytes → Option Bytes
unfolding framework_control_port itoa
get_framework_control_server_addr framework = on_some listen_text (framework_control_port framework)

-- `urlHost`, and `Host` in benchcli-go/connections/connection.go, which is the same text.
unfoldable pub url_host : Bytes → Bytes
unfolding has_prefix
url_host ip =
    if contains_byte ip b':' && not (has_prefix ip (codes "["))
    then b'[' ∷ (ip ++ codes "]")
    else ip

-- `FrameworkControlAddr`.
unfoldable pub framework_control_addr : Bytes → Bytes → Option Bytes
unfolding framework_control_port url_host itoa
framework_control_addr framework ip =
    on_some (λ port. codes "http://" ++ (url_host ip ++ listen_text port))
      (framework_control_port framework)
