-- ===== src/Report/Table.antt =====
-- benchcli-go/report/table.go: a table of cells, padded by their characters.
pub mod Aligned
pub mod Padding
use go_http_benchmark.Prelude.{
  ℕ, zero, suc, ◌+◌, ◌-◌, ◌/◌, ◌%◌, ◌*◌, Bool, true, false, ◌&&◌, ◌||◌, not, List, [], ◌∷◌, ◌++◌,
  Bytes, codes, length, replicate, if◌then◌else◌, ltb, map,
}

-- A cell as the runes that `utf8.RuneCountInString` counts.
abbrev pub Runes : Type 0
Runes = List ℕ

abbrev pub longer : ℕ → ℕ → ℕ
longer a b = if ltb a b then b else a

-- The inner loop over a row of the first pass.
unfoldable pub widen : List ℕ → List Runes → List ℕ
widen ws [] = ws
widen [] (c ∷ cs) = length c ∷ widen [] cs
widen (w ∷ ws) (c ∷ cs) = longer w (length c) ∷ widen ws cs

unfoldable pub widths : List ℕ → List (List Runes) → List ℕ
unfolding widen
widths ws [] = ws
widths ws (row ∷ rows) = widths (widen ws row) rows

unfoldable pub columns_of : ℕ → List (List Runes) → ℕ
columns_of n [] = n
columns_of n (row ∷ rows) = columns_of (longer n (length row)) rows

-- Empty cells up to the number of columns.
abbrev pub full : ℕ → List Runes → List Runes
full n row = row ++ replicate (n - length row) []

-- The loop of `padCell` in the first column: the spaces put in front, and those left.
abbrev smaller : ℕ → ℕ → ℕ
smaller a b = if ltb a b then a else b

-- The rounds of `i < paddingLen/2 && i < titleLeftPaddingIdx`, where a round takes one from
-- `paddingLen`.
unfoldable pub front : ℕ → ℕ → ℕ → ℕ → ℕ
front zero i padding idx = i
front (suc fuel) i padding idx =
    let rest = front fuel (suc i) (padding - 1) idx in
    if ltb i (padding / 2) && ltb i idx then rest else i

-- `padCell`.
unfoldable pub pad_cell : Runes → ℕ → Bool → ℕ → Runes
unfolding front
pad_cell s max_len is_first idx =
    let padding = max_len - length s in
    let half = padding / 2 in
    let shift = front padding 0 padding idx in
    if is_first
    then replicate shift b' ' ++ (s ++ replicate (padding - shift) b' ')
    else replicate half b' ' ++ (s ++ replicate (padding - half) b' ')

-- `padLeft`.
unfoldable pub pad_left : Runes → ℕ → Runes
pad_left s max_len =
    let padding = max_len - length s in
    if ltb 0 padding then b' ' ∷ (s ++ replicate (padding - 1) b' ') else s

abbrev pub pad : Bool → Runes → ℕ → Bool → ℕ → Runes
pad left s max_len is_first idx =
    if left then pad_left s max_len else pad_cell s max_len is_first idx

-- The last character of the padded first title that is not a space, and 0 for none.
unfoldable pub last_visible : ℕ → ℕ → Runes → ℕ
last_visible last k [] = last
last_visible last k (r ∷ rs) =
    let seen = last_visible k (suc k) rs in
    let unseen = last_visible last (suc k) rs in if ltb r b' ' || ltb b' ' r then seen else unseen

-- The cells of a line, each with a bar behind it.
unfoldable pub cells_line : Bool → ℕ → Bool → List ℕ → List Runes → Runes
unfolding pad_cell pad_left
cells_line left idx is_first ws [] = []
cells_line left idx is_first [] (c ∷ cs) = []
cells_line left idx is_first (w ∷ ws) (c ∷ cs) =
    pad left c w is_first idx ++ (b'|' ∷ cells_line left idx false ws cs)

abbrev pub line_of : Bool → ℕ → Bool → List ℕ → List Runes → Runes
line_of left idx is_first ws cells = b'|' ∷ cells_line left idx is_first ws cells

-- The title line pads no cell as a first one.
abbrev pub first_padded : Bool → List ℕ → List Runes → Runes
first_padded left (w ∷ ws) (c ∷ cs) = pad left c w false 0
first_padded left ws cells = []

abbrev pub separators : List Runes → List Runes
separators title = replicate (length title) (codes "---")

abbrev pub all_rows : List Runes → List (List Runes) → List (List Runes)
all_rows title rows = separators title ∷ rows

-- The width of each column, of its widest cell and two spaces.
unfoldable pub max_lens : List Runes → List (List Runes) → List ℕ
unfolding widths
max_lens title rows = map (λ w. w + 2) (widths (map length title) (all_rows title rows))

unfoldable pub column_num : List Runes → List (List Runes) → ℕ
unfolding columns_of
column_num title rows = columns_of (length title) (all_rows title rows)

-- `markdownTableAligned`: its lines, each of which a newline ends.
unfoldable pub markdown_table_aligned : List Runes → List (List Runes) → Bool → List Runes
unfolding max_lens column_num cells_line last_visible
markdown_table_aligned title rows left =
    let ws = max_lens title rows in
    let n = column_num title rows in
    let idx = last_visible 0 0 (first_padded left ws (full n title)) in
    line_of left 0 false ws (full n title)
    ∷ map (λ row. line_of left idx true ws (full n row)) (all_rows title rows)

-- `markdownTable`.
unfoldable pub markdown_table : List Runes → List (List Runes) → List Runes
unfolding markdown_table_aligned
markdown_table title rows = markdown_table_aligned title rows false
