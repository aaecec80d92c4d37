-- ===== src/Gameplay/Floating.antt =====
-- internal/gameplay/engine.go: `dropFloating`, which removes what no longer hangs from the top.
pub mod Anchored
pub mod Correct
pub mod Settled
use package.puzzle_bubble.Prelude.{
  ℕ, zero, suc, ◌+◌, pos, Bool, ◌&&◌, not, if◌then◌else◌, Option, none, some, List, [], ◌∷◌,
}
use puzzle_bubble.Gameplay.Grid.{
  Pos, Board, gb_cols, empty_cell, at, put, in_board, occupied, cells,
}
use puzzle_bubble.Gameplay.Search.{Search, contains, start, run}

-- `inBoard(r, c) && board[r][c] >= 0`.
pub filled : Board → Pos → Bool
filled b q = in_board q && occupied b q

-- The occupied cells of the top row, `n` columns from column `c` on.
pub top_cells : Board → ℕ → ℕ → List Pos
top_cells b zero c = []
top_cells b (suc n) c =
    let rest = top_cells b n (c + 1) in
    if occupied b (pos 0, pos c) then (pos 0, pos c) ∷ rest else rest

-- The test of the last loop: occupied, and not visited.
abbrev pub hangs : List Pos → Board → Pos → Bool
hangs vis b p = occupied b p && not (contains vis p)

-- The last loop, over the positions still to come.
pub sweep : List Pos → List Pos → Board → ℕ → Board × ℕ
sweep vis [] b dropped = (b, dropped)
sweep vis (p ∷ ps) b dropped =
    sweep vis ps (if hangs vis b p then put b p empty_cell else b)
      (if hangs vis b p then dropped + 1 else dropped)

-- The board afterwards and the number of cells removed; `none` is a search out of fuel.
unfoldable pub drop_floating : Board → Option (Board × ℕ)
unfolding filled top_cells sweep start run cells
drop_floating b = elim (run (filled b) 238 (start (top_cells b gb_cols 0))) [
  | none ↦ none
  | some t ↦ some (sweep t.vis cells b 0)
]
