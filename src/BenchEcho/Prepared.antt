-- ===== src/BenchEcho/Prepared.antt =====
-- benchcli-go/benchecho/benchecho.go: the payloads and requests that `init` prepares.
use go_http_benchmark.Prelude.{
  ℕ, zero, suc, ◌<◌, ◌≡◌, refl, List, [], ◌∷◌, Option, none, some, Bytes, codes, arith,
}
use go_http_benchmark.Config.Ports.{url_host}
use go_http_benchmark.Protocol.Encode.{encode_request}

-- The pairs of `pbuffers` and `wbuffers`, from the `i`th on; `random i n` is what `rand.Read` fills `n`
-- bytes with.
unfoldable pub prepared_from : (ℕ → ℕ → Bytes) → Bytes → ℕ → ℕ → ℕ → List (Bytes × Bytes)
unfolding encode_request
prepared_from random host payload i zero = []
prepared_from random host payload i (suc left) =
    (random i payload, encode_request (codes "POST") host (codes "/echo") (some (random i payload)))
    ∷ prepared_from random host payload (suc i) left

-- The loop of `init`.
unfoldable pub prepared : (ℕ → ℕ → Bytes) → Bytes → ℕ → List (Bytes × Bytes)
unfolding prepared_from url_host
prepared random ip payload = prepared_from random (url_host ip) payload 0 1024

-- `getBuffers`, with the index that `mrand.Intn` gives, which is less than the number of the pairs.
unfoldable pub get_buffers : ℕ → List (Bytes × Bytes) → Option (Bytes × Bytes)
get_buffers idx [] = none
get_buffers zero (p ∷ ps) = some p
get_buffers (suc idx) (p ∷ ps) = get_buffers idx ps

prepared_from-get_buffers :
    (random : ℕ → ℕ → Bytes) (host : Bytes) (payload i left idx : ℕ)
    → idx < left
    → (body : Bytes) × (get_buffers idx (prepared_from random host payload i left)
        ≡ some (body, encode_request (codes "POST") host (codes "/echo") (some body)))
unfolding prepared_from get_buffers
prepared_from-get_buffers random host payload i zero idx h = absurd (omega arith)
prepared_from-get_buffers random host payload i (suc left) zero h = (random i payload, refl)
prepared_from-get_buffers random host payload i (suc left) (suc idx) h =
    prepared_from-get_buffers random host payload (suc i) left idx (omega arith)

-- Whichever of the prepared buffers doOnce is given, the request that it writes carries the payload that it
-- compares the response with.
pub prepared-get_buffers :
    (random : ℕ → ℕ → Bytes) (ip : Bytes) (payload idx : ℕ)
    → idx < 1024
    → (body : Bytes) × (get_buffers idx (prepared random ip payload)
        ≡ some (body, encode_request (codes "POST") (url_host ip) (codes "/echo") (some body)))
unfolding prepared
prepared-get_buffers random ip payload idx h =
    prepared_from-get_buffers random (url_host ip) payload 0 1024 idx h
