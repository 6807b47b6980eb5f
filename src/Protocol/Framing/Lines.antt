-- ===== src/Protocol/Framing/Lines.antt =====
-- Lines of text as the server writes them, and as `readLine` reads them.
use go_http_benchmark.Prelude.{
  ℕ, ◌+◌, ◌-◌, ◌≤◌, ◌≡◌, ◌≢◌, refl, ap, sym, [], ◌∷◌, ◌++◌, append_assoc, arith, Bytes, length, All,
  All-append, take, take-append, length-append,
}
use go_http_benchmark.Golib.Reader.{Reader, holding, ok}
use go_http_benchmark.Golib.Reader.Lines.{read_slice-line}
use go_http_benchmark.Protocol.Framing.{read_line, chop_cr, chopped}

abbrev pub crlf : Bytes
crlf = b'\r' ∷ b'\n' ∷ []

-- A line's text: it holds no line feed, and the line fits in the reader's buffer.
pub record IsLine (size : ℕ) (line : Bytes) : Type 0 where
  pub no_newline : All (λ c. c ≢ b'\n') line
  pub fits : length line + 2 ≤ size

chop_cr_lem : (line : Bytes) → chop_cr (line ++ b'\r' ∷ []) ≡ line
chop_cr_lem [] = refl
chop_cr_lem (c ∷ []) = refl
chop_cr_lem (c ∷ d ∷ s) = ap (◌∷◌ c) (chop_cr_lem (d ∷ s))

take_but_last : (s : Bytes) (c : ℕ) → take (length (s ++ c ∷ []) - 1) (s ++ c ∷ []) ≡ s
take_but_last s c =
    let e : length (s ++ c ∷ []) - 1 ≡ length s = omega (arith, length-append s (c ∷ [])) in
    rw e (take-append s (c ∷ []))

cr_apart : (line rest : Bytes) → line ++ (crlf ++ rest) ≡ (line ++ b'\r' ∷ []) ++ b'\n' ∷ rest
cr_apart line rest = sym (append_assoc line (b'\r' ∷ []) (b'\n' ∷ rest))

-- A line that ends in CRLF is read as its text, and the reader stands behind it.
pub read_line-line :
    (r : Reader) (line rest : Bytes)
    → IsLine r.size line
    → read_line (holding r (line ++ (crlf ++ rest))) ≡ ok line (holding r rest)
unfolding read_line
read_line-line r line rest h =
    let text = line ++ b'\r' ∷ [] in
    let plain = All-append (λ c. c ≢ b'\n') line (b'\r' ∷ []) h.no_newline (omega arith) in
    rw (cr_apart line rest) (
      rw
        (
          read_slice-line r text rest b'\n' plain
              (omega (arith, h.fits, length-append line (b'\r' ∷ []))),
          chopped,
          take_but_last text b'\n',
          chop_cr_lem line,
        )
        refl)
