-- ===== src/Gameplay/Place.antt =====
-- internal/gameplay/engine.go: where a bubble lands, and what its landing does
-- (`placeAndResolve`). The random colour that is drawn at the end is an argument.
pub mod Nearest
pub mod Free
pub mod Settle
pub mod Cases
use package.puzzle_bubble.Prelude.{
  ℕ, ◌+◌, ◌*◌, ◌%◌, ◌^◌, ℤ, pos, negsuc, ◌+ℤ◌, ltb_ℤ, leb_ℤ, ltb, Bool, not, ◌||◌, if◌then◌else◌,
  Option, none, some, ◌>>=◌, List, [], ◌∷◌, ◌++◌, foldl,
}
use puzzle_bubble.Gameplay.Grid.{
  Pos, Board, gb_rows, gb_cols, at, put, in_board, occupied, is_odd, clamp_cell,
}
use puzzle_bubble.Gameplay.Float.{Float}
use puzzle_bubble.Gameplay.State.{PlayerState, MovingBubble, check_state}
use puzzle_bubble.Gameplay.Matches.{clear_matches}
use puzzle_bubble.Gameplay.Floating.{drop_floating}

-- `for d := -2; d <= 2; d++`.
abbrev offsets : List ℤ
offsets = negsuc 1 ∷ negsuc 0 ∷ pos 0 ∷ pos 1 ∷ pos 2 ∷ []

pub row_around : ℤ → ℤ → List ℤ → List Pos
row_around r c [] = []
row_around r c (dc ∷ dcs) = (r, c +ℤ dc) ∷ row_around r c dcs

pub rows_around : ℤ → ℤ → List ℤ → List Pos
unfolding row_around
rows_around r c [] = []
rows_around r c (dr ∷ drs) = row_around (r +ℤ dr) c offsets ++ rows_around r c drs

-- The positions that `findNearestEmpty` tries, in its order.
pub around : Pos → List Pos
unfolding rows_around
around (r, c) = rows_around r c offsets

-- `st.Score += n * k`, made only if `n > 0`.
pub award : ℕ → ℕ → ℕ → ℕ
award score n k = if ltb 0 n then (score + n * k) % 2 ^ 64 else score

module _ (fl : Float) where
  open fl use {F, of_int, to_int, add, sub, mul, div, lt, round, max_float}

  -- gbRadius, gbDiam and gbRowGap.
  abbrev pub radius : F
  radius = of_int (pos 16)

  abbrev diam : F
  diam = of_int (pos 32)

  abbrev row_gap : F
  row_gap = of_int (pos 28)

  pub shift : ℤ → F
  shift row = if is_odd row then radius else of_int (pos 0)

  unfoldable pub cell_center : Pos → F × F
  unfolding shift
  cell_center (row, col) =
      (add (add radius (shift row)) (mul (of_int col) diam), add radius (mul (of_int row) row_gap))

  -- The column part of `nearestCell`, the whole of `nearestColForRowX`.
  unfoldable pub nearest_col : ℤ → F → ℤ
  unfolding shift
  nearest_col row x =
      let col = to_int (round (div (sub (sub x radius) (shift row)) diam)) in
      if ltb_ℤ col (pos 0) then pos 0 else if leb_ℤ (pos gb_cols) col then pos 16 else col

  pub nearest_row : F → ℤ
  nearest_row y =
      let row = to_int (round (div (sub y radius) row_gap)) in
      if ltb_ℤ row (pos 0) then pos 0 else if leb_ℤ (pos gb_rows) row then pos 13 else row

  pub nearest_cell : F → F → Pos
  unfolding nearest_row nearest_col
  nearest_cell x y = let row = nearest_row y in (row, nearest_col row x)

  -- The squared distance of a cell's centre.
  unfoldable pub distance : F → F → Pos → F
  unfolding cell_center
  distance x y p =
      let (cx, cy) = cell_center p in
      let dx = sub cx x in let dy = sub cy y in add (mul dx dx) (mul dy dy)

  -- `best` with `bestR` and `bestC`.
  pub record Best : Type 0 where
    pub dist : F
    pub cell : Pos

  -- The body of the loops of `findNearestEmpty`.
  pub closer : Board → F → F → Best → Pos → Best
  unfolding distance
  closer b x y best p =
      let d2 = distance x y p in
      if not (in_board p) || occupied b p
      then best
      else if lt d2 best.dist
      then record { dist = d2; cell = p }
      else best

  unfoldable pub find_nearest_empty : Board → Pos → F → F → Option Pos
  unfolding closer around
  find_nearest_empty b base x y =
      let none_yet : Best = record { dist = max_float; cell = (negsuc 0, negsuc 0) } in
      let best = foldl (closer b x y) none_yet (around base) in
      if leb_ℤ (pos 0) (best.cell).0 then some best.cell else none

  -- The cell in which a bubble comes to rest, if there is one.
  unfoldable pub landing : Board → F → F → Option Pos
  unfolding find_nearest_empty nearest_cell clamp_cell
  landing b x y =
      let base = clamp_cell (nearest_cell x y) in
      if occupied b base then find_nearest_empty b base x y else some base

  -- `placeAndResolve` from the write of the board on.
  unfoldable pub settle : PlayerState F → Pos → ℤ → ℤ → Option (PlayerState F)
  unfolding award check_state clear_matches drop_floating put
  settle st p color drawn = do
    (cleared, removed) ← clear_matches (put st.board p color) p
    (kept, dropped) ← drop_floating cleared
    some (
        check_state (record st {
          board = kept;
          moving = none;
          score = award (award st.score removed 10) dropped 15;
          current_color = st.next_color;
          next_color = drawn;
        }))

  -- `none` is a search out of fuel.
  unfoldable pub place_and_resolve : PlayerState F → ℤ → Option (PlayerState F)
  unfolding landing settle
  place_and_resolve st drawn = elim st.moving [
    | none ↦ some st
    | some m ↦ elim (landing st.board m.x m.y) [
      | none ↦ some (record st { moving = none })
      | some p ↦ settle st p m.color drawn
    ]
  ]
