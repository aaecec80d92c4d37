-- ===== src/Gameplay/Floating/Anchored.antt =====
-- Which bubbles hang from the top row, said without the search.
use puzzle_bubble.Prelude.{ℕ, ◌<◌, ◌≡◌, arith, pos, true, ◌∈◌}
use puzzle_bubble.Gameplay.Grid.{Pos, Board, gb_cols, in_board, occupied, neighbors}
use puzzle_bubble.Gameplay.Grid.Laws.{in_board_iff}

-- A bubble of the top row hangs, and so does a bubble next to one that hangs.
pub data Anchored (b : Board) : Pos → Type 0 where
  top : {p : Pos} (c : ℕ) → p ≡ (pos 0, pos c) → c < gb_cols → occupied b p ≡ true → Anchored b p
  under :
      {p q : Pos}
      → Anchored b p
      → q ∈ neighbors p
      → in_board q ≡ true
      → occupied b q ≡ true
      → Anchored b q

pub Anchored-in_board : (b : Board) {p : Pos} → Anchored b p → in_board p ≡ true
Anchored-in_board b {p} (top c e lt full) = (in_board_iff p).1 (0, c, e, omega arith, lt)
Anchored-in_board b (under r n inside full) = inside
