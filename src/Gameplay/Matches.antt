-- ===== src/Gameplay/Matches.antt =====
-- internal/gameplay/engine.go: `clearMatches`, which removes the group of a colour around a cell.
pub mod Correct
use package.puzzle_bubble.Prelude.{
  ℕ, ◌+◌, ℤ, Bool, true, false, ◌&&◌, ltb, if◌then◌else◌, is_neg, eq_ℤ, Option, none, some, List,
  [], ◌∷◌, length,
}
use puzzle_bubble.Gameplay.Grid.{Pos, Board, empty_cell, at, put, in_board}
use puzzle_bubble.Gameplay.Search.{Search, start, run}

-- `inBoard(r, c) && board[r][c] == color`.
pub same_color : Board → ℤ → Pos → Bool
same_color b color q = in_board q && eq_ℤ (at b q) color

-- `for _, p := range group { board[p.r][p.c] = -1 }`.
pub clear_all : Board → List Pos → Board
clear_all b [] = b
clear_all b (p ∷ ps) = clear_all (put b p empty_cell) ps

-- What is done with the group once it is collected.
pub clear_group : Board → List Pos → Board × ℕ
unfolding clear_all
clear_group b group = if ltb (length group) 3 then (b, 0) else (clear_all b group, length group)

-- The board afterwards and the number of cells removed; `none` is a search out of fuel.
unfoldable pub clear_matches : Board → Pos → Option (Board × ℕ)
unfolding same_color clear_group start run
clear_matches b p =
    let color = at b p in
    if is_neg color then some (b, 0) else elim (run (same_color b color) 238 (start (p ∷ []))) [
      | none ↦ none
      | some t ↦ some (clear_group b t.group)
    ]
