-- ===== src/Protocol/Ascii/Status.antt =====
-- What `parseStatus` accepts.
use go_http_benchmark.Prelude.{ℕ, ◌+◌, ◌*◌, ◌≤◌, ◌∷◌, ◌++◌, ◌≡◌, some, arith, Bytes, codes}
use go_http_benchmark.Protocol.Ascii.{parse_status}

-- Every status line of HTTP/1.0 or HTTP/1.1 is read as the number that its three digits spell.
pub parse_status_lem :
    (minor a b c : ℕ) (reason : Bytes)
    → a ≤ 9
    → b ≤ 9
    → c ≤ 9
    → parse_status
        (codes "HTTP/1." ++ minor ∷ b' ' ∷ (b'0' + a) ∷ (b'0' + b) ∷ (b'0' + c) ∷ b' ' ∷ reason)
      ≡ some (a * 100 + b * 10 + c)
unfolding parse_status
parse_status_lem minor a b c reason ha hb hc = ground arith
