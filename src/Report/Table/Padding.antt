-- ===== src/Report/Table/Padding.antt =====
-- A cell padded to its column's width, and a line of such cells.
use go_http_benchmark.Prelude.{
  ℕ, zero, suc, ◌+◌, ◌-◌, ◌/◌, ◌≤◌, ◌≡◌, refl, Bool, true, false, List, [], ◌∷◌, ◌++◌, length,
  arith, length-append, length-replicate, replicate,
}
use go_http_benchmark.Report.Table.{Runes, front, pad_cell, pad_left, pad, cells_line}

front_le : (fuel i padding idx : ℕ) → front fuel i padding idx ≤ padding + i
unfolding front
front_le zero i padding idx = omega arith
front_le (suc fuel) i padding idx = ground (arith, front_le fuel (suc i) (padding - 1) idx)

length-padded :
    (a b : ℕ) (s : Runes)
    → length (replicate a b' ' ++ (s ++ replicate b b' ')) ≡ a + (length s + b)
length-padded a b s = omega (
  arith,
  length-append (replicate a b' ') (s ++ replicate b b' '),
  length-append s (replicate b b' '),
  length-replicate {A = ℕ} a b' ',
  length-replicate {A = ℕ} b b' ',
)

length-pad_cell :
    (s : Runes) (w : ℕ) (is_first : Bool) (idx : ℕ)
    → length s ≤ w
    → length (pad_cell s w is_first idx) ≡ w
unfolding pad_cell
length-pad_cell s w true idx h =
    let shift = front (w - length s) 0 (w - length s) idx in
    omega (
      arith,
      length-padded shift (w - length s - shift) s,
      front_le (w - length s) 0 (w - length s) idx,
    )
length-pad_cell s w false idx h =
    let half = (w - length s) / 2 in omega (arith, length-padded half (w - length s - half) s)

length-pad_left : (s : Runes) (w : ℕ) → length s ≤ w → length (pad_left s w) ≡ w
unfolding pad_left
length-pad_left s w h = ground (arith, length-padded 1 (w - length s - 1) s)

length-pad :
    (left : Bool) (s : Runes) (w : ℕ) (is_first : Bool) (idx : ℕ)
    → length s ≤ w
    → length (pad left s w is_first idx) ≡ w
length-pad true s w is_first idx h = length-pad_left s w h
length-pad false s w is_first idx h = length-pad_cell s w is_first idx h

-- Cells no wider than their columns, one for each.
abbrev pub FitIn : List ℕ → List Runes → Type 0
FitIn [] [] = Unit
FitIn (w ∷ ws) (c ∷ cs) = (length c ≤ w) × FitIn ws cs
FitIn [] (c ∷ cs) = ⊥
FitIn (w ∷ ws) [] = ⊥

abbrev pub total : List ℕ → ℕ
total [] = 0
total (w ∷ ws) = suc w + total ws

pub length-cells_line :
    (left : Bool) (idx : ℕ) (is_first : Bool) (ws : List ℕ) (cs : List Runes)
    → FitIn ws cs
    → length (cells_line left idx is_first ws cs) ≡ total ws
unfolding cells_line
length-cells_line left idx is_first [] [] h = refl
length-cells_line left idx is_first [] (c ∷ cs) h = refl
length-cells_line left idx is_first (w ∷ ws) [] h = elim h [ ]
length-cells_line left idx is_first (w ∷ ws) (c ∷ cs) (hc, hs) = omega (
  arith,
  length-append (pad left c w is_first idx) (b'|' ∷ cells_line left idx false ws cs),
  length-pad left c w is_first idx hc,
  length-cells_line left idx false ws cs hs,
)
