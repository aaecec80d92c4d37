-- ===== src/Gameplay/Grid.antt =====
-- internal/gameplay/engine.go: the board, its coordinates and the hexagonal neighbourhood. A cell
-- is read and written by signed coordinates, since `neighbors` leaves the board at its edges.
pub mod Laws
pub mod Count
use package.puzzle_bubble.Prelude.{
  ℕ, zero, suc, ◌+◌, ◌%◌, ℤ, pos, negsuc, ◌+ℤ◌, ◌-ℤ◌, ltb_ℤ, leb_ℤ, Bool, true, false, ◌&&◌, ◌==◌,
  if◌then◌else◌, List, [], ◌∷◌, ◌++◌, get_or, set, is_neg, not,
}

abbrev pub gb_rows : ℕ
gb_rows = 14

abbrev pub gb_cols : ℕ
gb_cols = 17

-- Row and column.
abbrev pub Pos : Type 0
Pos = ℤ × ℤ

abbrev pub Board : Type 0
Board = List (List ℤ)

abbrev pub empty_cell : ℤ
empty_cell = negsuc 0

-- `board[r][c]`. The default stands for an index out of range, where the source panics; every
-- read of the model on a board of the full size is behind `in_board` or over `cells`.
unfoldable pub at : Board → Pos → ℤ
at b (pos r, pos c) = get_or (get_or b r []) c empty_cell
at b (pos r, negsuc c) = empty_cell
at b (negsuc r, c) = empty_cell

-- `board[r][c] = v`.
unfoldable pub put : Board → Pos → ℤ → Board
put b (pos r, pos c) v = set b r (set (get_or b r []) c v)
put b (pos r, negsuc c) v = b
put b (negsuc r, c) v = b

unfoldable pub in_board : Pos → Bool
in_board (r, c) =
    leb_ℤ (pos 0) r && ltb_ℤ r (pos gb_rows) && leb_ℤ (pos 0) c && ltb_ℤ c (pos gb_cols)

-- `board[r][c] >= 0`.
abbrev pub occupied : Board → Pos → Bool
occupied b p = not (is_neg (at b p))

-- `r%2 == 1`, where the remainder of a negative number is not positive.
abbrev pub is_odd : ℤ → Bool
is_odd (pos n) = n % 2 == 1
is_odd (negsuc n) = false

unfoldable pub neighbors : Pos → List Pos
neighbors (r, c) =
    let one = pos 1 in
    if is_odd r
    then (r -ℤ one, c)
      ∷ (r -ℤ one, c +ℤ one)
      ∷ (r, c -ℤ one)
      ∷ (r, c +ℤ one)
      ∷ (r +ℤ one, c)
      ∷ (r +ℤ one, c +ℤ one)
      ∷ []
    else (r -ℤ one, c -ℤ one)
      ∷ (r -ℤ one, c)
      ∷ (r, c -ℤ one)
      ∷ (r, c +ℤ one)
      ∷ (r +ℤ one, c -ℤ one)
      ∷ (r +ℤ one, c)
      ∷ []

-- The positions of `n` columns of row `r` from column `c` on.
pub row_cells : ℕ → ℕ → ℕ → List Pos
row_cells r zero c = []
row_cells r (suc n) c = (pos r, pos c) ∷ row_cells r n (c + 1)

pub cells_from : ℕ → ℕ → List Pos
unfolding row_cells
cells_from zero r = []
cells_from (suc n) r = row_cells r gb_cols 0 ++ cells_from n (r + 1)

-- The positions that `for r … for c …` runs through, in its order.
unfoldable pub cells : List Pos
unfolding cells_from
cells = cells_from gb_rows 0

-- The count of `board[r][c] >= 0` over a list of positions, as in `checkState`.
unfoldable pub count_occupied : Board → List Pos → ℕ
count_occupied b [] = 0
count_occupied b (p ∷ ps) = (if occupied b p then 1 else 0) + count_occupied b ps

unfoldable pub clamp_cell : Pos → Pos
clamp_cell (row, col) =
    let row₁ = if ltb_ℤ row (pos 0) then pos 0 else row in
    let row₂ = if leb_ℤ (pos gb_rows) row₁ then pos gb_rows -ℤ pos 1 else row₁ in
    let col₁ = if ltb_ℤ col (pos 0) then pos 0 else col in
    let col₂ = if leb_ℤ (pos gb_cols) col₁ then pos gb_cols -ℤ pos 1 else col₁ in (row₂, col₂)
