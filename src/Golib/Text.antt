-- ===== src/Golib/Text.antt =====
-- Of `bytes` and `strings`: searching, trimming and case. White space and letters are those of
-- ASCII; the longer spaces and letters that Go knows in UTF-8 are not.
pub mod Trim
use go_http_benchmark.Prelude.{
  ℕ, suc, ◌+◌, ◌-◌, Bool, true, false, not, ◌&&◌, ◌||◌, List, [], ◌∷◌, ◌++◌, Option, none, some,
  Bytes, ltb, leb, ◌==◌, if◌then◌else◌,
}

abbrev suc_opt : Option ℕ → Option ℕ
suc_opt none = none
suc_opt (some i) = some (suc i)

-- `IndexByte`; `none` is -1.
unfoldable pub index_byte : Bytes → ℕ → Option ℕ
index_byte [] b = none
index_byte (c ∷ s) b = if c == b then some 0 else suc_opt (index_byte s b)

abbrev pub contains_byte : Bytes → ℕ → Bool
contains_byte [] b = false
contains_byte (c ∷ s) b = c == b || contains_byte s b

abbrev pub is_space : ℕ → Bool
is_space c = c == b' ' || c == b'\t' || c == b'\n' || c == 11 || c == 12 || c == b'\r'

-- `TrimLeft` and `TrimRight` by a set of bytes.
unfoldable pub trim_left : (ℕ → Bool) → Bytes → Bytes
trim_left p [] = []
trim_left p (c ∷ s) = elim (p c) [ true ↦ trim_left p s | false ↦ c ∷ s ]

abbrev keep_byte : Bool → ℕ → Bytes → Bytes
keep_byte true c [] = []
keep_byte true c (d ∷ s) = c ∷ d ∷ s
keep_byte false c s = c ∷ s

unfoldable pub trim_right : (ℕ → Bool) → Bytes → Bytes
trim_right p [] = []
trim_right p (c ∷ s) = keep_byte (p c) c (trim_right p s)

-- `Trim`.
unfoldable pub trim : (ℕ → Bool) → Bytes → Bytes
unfolding trim_left trim_right
trim p s = trim_right p (trim_left p s)

-- `TrimSpace`.
unfoldable pub trim_space : Bytes → Bytes
unfolding trim
trim_space = trim is_space

abbrev pub lower : ℕ → ℕ
lower c = if leb b'A' c && leb c b'Z' then c + 32 else c

-- `ToLower`.
unfoldable pub to_lower : Bytes → Bytes
to_lower [] = []
to_lower (c ∷ s) = lower c ∷ to_lower s

-- `HasPrefix`.
unfoldable pub has_prefix : Bytes → Bytes → Bool
has_prefix s [] = true
has_prefix [] (p ∷ ps) = false
has_prefix (c ∷ s) (p ∷ ps) = c == p && has_prefix s ps

-- `Contains`.
unfoldable pub contains : Bytes → Bytes → Bool
unfolding has_prefix
contains [] sub = has_prefix [] sub
contains (c ∷ s) sub = has_prefix (c ∷ s) sub || contains s sub

-- `TrimPrefix`.
abbrev strip : Bytes → Bytes → Option Bytes
strip s [] = some s
strip [] (p ∷ ps) = none
strip (c ∷ s) (p ∷ ps) = if c == p then strip s ps else none

abbrev or_whole : Bytes → Option Bytes → Bytes
or_whole s none = s
or_whole s (some r) = r

unfoldable pub trim_prefix : Bytes → Bytes → Bytes
trim_prefix s p = or_whole s (strip s p)

abbrev push_part : ℕ → Bool → List Bytes → List Bytes
push_part c true ps = [] ∷ ps
push_part c false [] = (c ∷ []) ∷ []
push_part c false (p ∷ ps) = (c ∷ p) ∷ ps

-- `Split` by one byte: always at least one part.
unfoldable pub split : Bytes → ℕ → List Bytes
split [] sep = [] ∷ []
split (c ∷ s) sep = push_part c (c == sep) (split s sep)

-- `Join`.
unfoldable pub join : List Bytes → Bytes → Bytes
join [] sep = []
join (p ∷ []) sep = p
join (p ∷ q ∷ ps) sep = p ++ (sep ++ join (q ∷ ps) sep)
