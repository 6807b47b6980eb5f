-- ===== src/Protocol/Ascii.antt =====
-- `asciiEqualFold` and `parseStatus`.
pub mod Fold
pub mod Status
use go_http_benchmark.Prelude.{
  ℕ, suc, ◌+◌, ◌-◌, ◌*◌, Bool, true, false, not, ◌&&◌, ◌||◌, [], ◌∷◌, Option, none, some, Bytes,
  codes, ltb, leb, ◌==◌, if◌then◌else◌, length, take, drop,
}
use go_http_benchmark.Golib.Text.{has_prefix}

-- A capital letter moved to lower case, as the loop of `asciiEqualFold` does.
abbrev pub fold_byte : ℕ → ℕ
fold_byte c = if leb b'A' c && leb c b'Z' then c + (b'a' - b'A') else c

fold_loop : Bytes → Bytes → Bool
fold_loop [] s = true
fold_loop (c ∷ b) [] = true
fold_loop (c ∷ b) (d ∷ s) = if not (fold_byte c == fold_byte d) then false else fold_loop b s

unfoldable pub ascii_equal_fold : Bytes → Bytes → Bool
unfolding fold_loop
ascii_equal_fold b s = if not (length b == length s) then false else fold_loop b s

-- One of the three digits behind the ones read so far; `none` is `ErrMalformedStatus`.
abbrev status_digits : Bytes → ℕ → Option ℕ
status_digits [] status = some status
status_digits (c ∷ s) status =
    if ltb c b'0' || ltb b'9' c then none else status_digits s (status * 10 + (c - b'0'))

abbrev starts_blank : Bytes → Bool
starts_blank [] = false
starts_blank (c ∷ s) = c == b' '

-- `line[i] == ' '`, for an index in range.
abbrev blank_at : ℕ → Bytes → Bool
blank_at i line = starts_blank (drop i line)

after_code : Bytes → Option ℕ → Option ℕ
after_code line none = none
after_code line (some status) =
    if ltb 12 (length line) && not (blank_at 12 line) then none else some status

-- `parseStatus`; `none` is `ErrMalformedStatus`.
unfoldable pub parse_status : Bytes → Option ℕ
unfolding after_code has_prefix
parse_status line =
    if ltb (length line) 12 || not (has_prefix line (codes "HTTP/1.")) || not (blank_at 8 line)
    then none
    else after_code line (status_digits (take 3 (drop 9 line)) 0)
