-- ===== src/Gameplay/Layer.antt =====
-- internal/gameplay/engine.go: `AddTopLayer`, which presses the board down by a row. The bubbles of
-- row `r` go to row `r + 1` alone, so the new board is built row by row.
pub mod Conserve
use package.puzzle_bubble.Prelude.{
  ℕ, zero, suc, ◌+◌, ◌-◌, ◌<◌, ℤ, pos, negsuc, Bool, true, false, ◌&&◌, ltb, leb, not,
  if◌then◌else◌, is_neg, Option, none, some, List, [], ◌∷◌, length, get_or, set, replicate, take,
}
use puzzle_bubble.Gameplay.Grid.{Board, gb_rows, gb_cols, empty_cell}
use puzzle_bubble.Gameplay.Float.{Float}
use puzzle_bubble.Gameplay.State.{PlayerState, check_state}
use puzzle_bubble.Gameplay.Place.{cell_center, nearest_col}

-- `row[i] < 0`, for an index in range.
abbrev pub is_empty : List ℤ → ℕ → Bool
is_empty row i = ltb i (length row) && is_neg (get_or row i empty_cell)

-- The loop of `nearestEmptyInRow` from distance `d` on, `n` distances.
pub search_row : List ℤ → ℕ → ℕ → ℕ → Option ℕ
search_row row center zero d = none
search_row row center (suc n) d =
    let rest = search_row row center n (d + 1) in
    if leb d center && is_empty row (center - d)
    then some (center - d)
    else if is_empty row (center + d)
    then some (center + d)
    else rest

-- `center` comes from `nearestColForRowX` and so is not negative.
unfoldable pub nearest_empty_in_row : List ℤ → ℕ → Option ℕ
unfolding search_row
nearest_empty_in_row row center =
    if is_empty row center then some center else search_row row center (length row - 1) 1

-- A column that `nearestColForRowX` returns, as an index.
abbrev pub index : ℤ → ℕ
index (pos c) = c
index (negsuc c) = 0

-- A bubble goes to column `target` of the row, or to the nearest free one.
unfoldable pub drop_in : List ℤ → ℕ → ℤ → List ℤ
drop_in row target color =
    if is_neg (get_or row target empty_cell)
    then set row target color
    else elim (nearest_empty_in_row row target) [ none ↦ row | some alt ↦ set row alt color ]

module _ (fl : Float) where
  -- The inner loop for row `r`, over its cells from column `c` on.
  unfoldable pub press_row : ℕ → List ℤ → ℕ → List ℤ → List ℤ
  press_row r [] c row = row
  press_row r (color ∷ colors) c row =
      let target = index (nearest_col fl (pos (r + 1)) (cell_center fl (pos r, pos c)).0) in
      press_row r colors (c + 1) (if is_neg color then row else drop_in row target color)

  -- The rows of the new board from row `r + 1` on.
  unfoldable pub press_rows : ℕ → List (List ℤ) → Board
  press_rows r [] = []
  press_rows r (row ∷ rows) =
      press_row r row 0 (replicate gb_cols empty_cell) ∷ press_rows (r + 1) rows

  -- The last row leaves the board; `top` is the row that the random generator fills.
  unfoldable pub add_top_layer : PlayerState fl.F → List ℤ → PlayerState fl.F
  add_top_layer st top =
      check_state (record st { board = top ∷ press_rows 0 (take (gb_rows - 1) st.board) })
