-- ===== src/Report/Table/Aligned.antt =====
-- Every line of a table is equally wide.
use go_http_benchmark.Prelude.{
  ℕ, suc, ◌+◌, ◌≤◌, ◌≡◌, refl, sym, subst, ◌∙◌, ap, Bool, true, false, List, [], ◌∷◌, ◌++◌, length,
  arith, All, replicate, map,
}
use go_http_benchmark.Report.Table.{
  Runes, longer, widen, widths, columns_of, full, line_of, all_rows, max_lens, column_num,
  markdown_table_aligned, last_visible, first_padded,
}
use go_http_benchmark.Report.Table.Padding.{FitIn, total, length-cells_line}

-- Widths that have one for each cell of a row, none smaller than the cell.
abbrev Covers : List ℕ → List Runes → Type 0
Covers ws [] = Unit
Covers [] (c ∷ cs) = ⊥
Covers (w ∷ ws) (c ∷ cs) = (length c ≤ w) × Covers ws cs

abbrev Above : List ℕ → List ℕ → Type 0
Above vs [] = Unit
Above [] (w ∷ ws) = ⊥
Above (v ∷ vs) (w ∷ ws) = (w ≤ v) × Above vs ws

Above-refl : (ws : List ℕ) → Above ws ws
Above-refl [] = tt
Above-refl (w ∷ ws) = (omega arith, Above-refl ws)

Above-trans : (us vs ws : List ℕ) → Above us vs → Above vs ws → Above us ws
Above-trans us vs [] h k = tt
Above-trans us [] (w ∷ ws) h k = elim k [ ]
Above-trans [] (v ∷ vs) (w ∷ ws) h k = elim h [ ]
Above-trans (u ∷ us) (v ∷ vs) (w ∷ ws) (h, hs) (k, ks) = (omega arith, Above-trans us vs ws hs ks)

Above-Covers : (vs ws : List ℕ) (row : List Runes) → Above vs ws → Covers ws row → Covers vs row
Above-Covers vs ws [] h k = tt
Above-Covers vs [] (c ∷ cs) h k = elim k [ ]
Above-Covers [] (w ∷ ws) (c ∷ cs) h k = elim h [ ]
Above-Covers (v ∷ vs) (w ∷ ws) (c ∷ cs) (h, hs) (k, ks) = (omega arith, Above-Covers vs ws cs hs ks)

widen-Above : (ws : List ℕ) (row : List Runes) → Above (widen ws row) ws
unfolding widen
widen-Above ws [] = Above-refl ws
widen-Above [] (c ∷ cs) = tt
widen-Above (w ∷ ws) (c ∷ cs) = (ground arith, widen-Above ws cs)

widen-Covers : (ws : List ℕ) (row : List Runes) → Covers (widen ws row) row
unfolding widen
widen-Covers ws [] = tt
widen-Covers [] (c ∷ cs) = (omega arith, widen-Covers [] cs)
widen-Covers (w ∷ ws) (c ∷ cs) = (ground arith, widen-Covers ws cs)

widths-Above : (ws : List ℕ) (rows : List (List Runes)) → Above (widths ws rows) ws
unfolding widths
widths-Above ws [] = Above-refl ws
widths-Above ws (row ∷ rows) =
    Above-trans _ _ ws (widths-Above (widen ws row) rows) (widen-Above ws row)

widths-Covers : (ws : List ℕ) (rows : List (List Runes)) → All (Covers (widths ws rows)) rows
unfolding widths
widths-Covers ws [] = tt
widths-Covers ws (row ∷ rows) = (
  Above-Covers _ _ row (widths-Above (widen ws row) rows) (widen-Covers ws row),
  widths-Covers (widen ws row) rows,
)

length-widen :
    (ws : List ℕ) (row : List Runes) → length (widen ws row) ≡ longer (length ws) (length row)
unfolding widen
length-widen [] [] = refl
length-widen (w ∷ ws) [] = ground arith
length-widen [] (c ∷ cs) = ground (arith, length-widen [] cs)
length-widen (w ∷ ws) (c ∷ cs) = ground (arith, length-widen ws cs)

length-widths :
    (ws : List ℕ) (rows : List (List Runes)) → length (widths ws rows) ≡ columns_of (length ws) rows
unfolding widths columns_of
length-widths ws [] = refl
length-widths ws (row ∷ rows) =
    length-widths (widen ws row) rows ∙ ap (λ n. columns_of n rows) (length-widen ws row)

empty-FitIn : (ws : List ℕ) → FitIn (map (λ w. w + 2) ws) (replicate (length ws) [])
empty-FitIn [] = tt
empty-FitIn (w ∷ ws) = (omega arith, empty-FitIn ws)

-- A row that the widths cover, with empty cells up to the number of columns, fits in them.
Covers-FitIn :
    (ws : List ℕ) (row : List Runes)
    → Covers ws row
    → FitIn (map (λ w. w + 2) ws) (full (length ws) row)
Covers-FitIn ws [] h =
    subst (λ k. FitIn (map (λ w. w + 2) ws) (replicate k [])) (omega arith) (empty-FitIn ws)
Covers-FitIn [] (c ∷ cs) h = elim h [ ]
Covers-FitIn (w ∷ ws) (c ∷ cs) (h, hs) = (
  omega arith,
  subst (λ k. FitIn (map (λ w. w + 2) ws) (cs ++ replicate k [])) (omega arith)
      (Covers-FitIn ws cs hs),
)

Covers-title : (title : List Runes) → Covers (map length title) title
Covers-title [] = tt
Covers-title (c ∷ cs) = (omega arith, Covers-title cs)

length-map-length : (title : List Runes) → length (map length title) ≡ length title
length-map-length [] = refl
length-map-length (c ∷ cs) = ap suc (length-map-length cs)

lines-All :
    (left : Bool) (idx n : ℕ) (ws : List ℕ) (rows : List (List Runes))
    → length ws ≡ n
    → All (Covers ws) rows
    → All
        (λ line. length line ≡ suc (total (map (λ w. w + 2) ws)))
        (map (λ row. line_of left idx true (map (λ w. w + 2) ws) (full n row)) rows)
lines-All left idx n ws [] e h = tt
lines-All left idx n ws (row ∷ rows) e (h, hs) = (
  ap suc (
      length-cells_line left idx true (map (λ w. w + 2) ws) (full n row)
        (rw (sym e) (Covers-FitIn ws row h))),
  lines-All left idx n ws rows e hs,
)

-- Every line of a table, the title and the separators among them, is as many characters wide as
-- the columns and the bars behind them, and one more.
pub markdown_table_aligned_width :
    (title : List Runes) (rows : List (List Runes)) (left : Bool)
    → All
        (λ line. length line ≡ suc (total (max_lens title rows)))
        (markdown_table_aligned title rows left)
unfolding markdown_table_aligned max_lens column_num
markdown_table_aligned_width title rows left =
    let ws = widths (map length title) (all_rows title rows) in
    let idx =
      last_visible 0 0
        (first_padded left (max_lens title rows) (full (column_num title rows) title)) in
    let e : length ws ≡ column_num title rows =
      length-widths (map length title) (all_rows title rows)
      ∙ ap (λ n. columns_of n (all_rows title rows)) (length-map-length title) in
    (
      ap suc (
          length-cells_line left 0 false (map (λ w. w + 2) ws) (full (column_num title rows) title)
            (rw (sym e) (
              Covers-FitIn ws title (
                Above-Covers ws (map length title) title
                  (widths-Above (map length title) (all_rows title rows)) (Covers-title title))))),
      lines-All left idx (column_num title rows) ws (all_rows title rows) e
          (widths-Covers (map length title) (all_rows title rows)),
    )
