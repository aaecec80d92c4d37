-- ===== src/Gameplay/Grid/Laws.antt =====
-- Laws of the board: what a write changes, which positions `cells` lists, and that being
-- neighbours goes both ways.
use puzzle_bubble.Prelude.{
  ℕ, zero, suc, ◌+◌, ◌≤◌, ◌<◌, ◌≡◌, refl, sym, ◌∙◌, ◌↔◌, inl, inr, arith, ℤ, pos, negsuc, Bool,
  true, ◌&&◌, [], length, get_or, set, length-set, get_or-set, ◌∈◌, Distinct, mem-append,
  Distinct-append, eq_ℤ, eq_ℤ_iff, ◌==◌, ==_iff, if◌then◌else◌, Bool-cases,
}
use puzzle_bubble.Gameplay.Grid.{
  gb_rows, gb_cols, Pos, Board, empty_cell, at, put, in_board, neighbors, row_cells, cells_from,
  cells,
}

-- A board has 14 rows of 17 cells.
pub record IsBoard (b : Board) : Type 0 where
  pub height : length b ≡ gb_rows
  pub width : (r : ℕ) → r < gb_rows → length (get_or b r []) ≡ gb_cols

unfoldable pub eq_pos : Pos → Pos → Bool
eq_pos (r, c) (r', c') = eq_ℤ r r' && eq_ℤ c c'

pub eq_pos_iff : (p q : Pos) → (eq_pos p q ≡ true) ↔ (p ≡ q)
unfolding eq_pos
eq_pos_iff (r, c) (r', c') = ground (arith, eq_ℤ_iff r r', eq_ℤ_iff c c')

-- A position of the board is a pair of natural numbers below the bounds.
pub in_board_iff :
    (p : Pos)
    → (in_board p ≡ true)
      ↔ ((r : ℕ) × (c : ℕ) × (p ≡ (pos r, pos c)) × (r < gb_rows) × (c < gb_cols))
unfolding in_board
in_board_iff (pos r, pos c) =
    (λ h. (r, c, refl, ground arith, ground arith), λ (r', c', e, hr, hc). ground arith)
in_board_iff (pos r, negsuc c) = (λ h. absurd (ground arith), λ (r', c', e, hr, hc). ground arith)
in_board_iff (negsuc r, c) = (λ h. absurd (ground arith), λ (r', c', e, hr, hc). ground arith)

-- A write changes the cell that it names and no other, and keeps the size.
module _ (b : Board) (shape : IsBoard b) (v : ℤ) where
  pub at-put :
      (p q : Pos) → in_board p ≡ true → at (put b p v) q ≡ (if eq_pos p q then v else at b q)
  unfolding at put eq_pos
  at-put p (pos r', pos c') h =
      let (r, c, e, hr, hc) = (in_board_iff p).0 h in
      rw (e, get_or-set b r r' (set (get_or b r []) c v) [] (rw shape.height hr))
        (ground (arith, get_or-set (get_or b r []) c c' v empty_cell (rw (shape.width r hr) hc)))
  at-put p (pos r', negsuc c') h = rw (((in_board_iff p).0 h).2) (ground arith)
  at-put p (negsuc r', c') h = rw (((in_board_iff p).0 h).2) (ground arith)

  pub put-IsBoard : (p : Pos) → in_board p ≡ true → IsBoard (put b p v)
  unfolding put
  put-IsBoard p h =
      let (r, c, e, hr, hc) = (in_board_iff p).0 h in
      rw e (record {
        height = length-set b r _ ∙ shape.height;
        width = λ r' h'.
            rw (get_or-set b r r' (set (get_or b r []) c v) [] (rw shape.height hr))
              (ground (arith, length-set (get_or b r []) c v, shape.width r hr, shape.width r' h'));
      })

mem-row_cells :
    (r n c : ℕ) (p : Pos)
    → (p ∈ row_cells r n c) ↔ ((k : ℕ) × (p ≡ (pos r, pos k)) × (c ≤ k) × (k < c + n))
unfolding row_cells
mem-row_cells r zero c p = (λ m. absurd m, λ (k, e, lo, hi). absurd (omega arith))
mem-row_cells r (suc n) c p = (
  elim [
    | inl e ↦ (c, e, omega arith, omega arith)
    | inr m ↦
        let (k, e, lo, hi) = (mem-row_cells r n (c + 1) p).0 m in (k, e, omega arith, omega arith)
  ],
  λ (k, e, lo, hi). elim (Bool-cases (c == k)) [
    | inl same ↦ inl (rw ((==_iff c k).0 same) e)
    | inr more ↦ inr ((mem-row_cells r n (c + 1) p).1 (k, e, ground arith, omega arith))
  ],
)

mem-cells_from :
    (n r : ℕ) (p : Pos)
    → (p ∈ cells_from n r)
      ↔ ((i : ℕ) × (k : ℕ) × (p ≡ (pos i, pos k)) × (r ≤ i) × (i < r + n) × (k < gb_cols))
unfolding cells_from
mem-cells_from zero r p = (λ m. absurd m, λ (i, k, e, lo, hi, w). absurd (omega arith))
mem-cells_from (suc n) r p = (
  λ m. elim ((mem-append p (row_cells r gb_cols 0) (cells_from n (r + 1))).0 m) [
    | inl here ↦
        let (k, e, lo, hi) = (mem-row_cells r gb_cols 0 p).0 here in
        (r, k, e, omega arith, omega arith, omega arith)
    | inr later ↦
        let (i, k, e, lo, hi, w) = (mem-cells_from n (r + 1) p).0 later in
        (i, k, e, omega arith, omega arith, w)
  ],
  λ (i, k, e, lo, hi, w).
      (mem-append p (row_cells r gb_cols 0) (cells_from n (r + 1))).1 (elim (Bool-cases (r == i)) [
        | inl same ↦ inl (
            (mem-row_cells r gb_cols 0 p).1
              (k, rw ((==_iff r i).0 same) e, omega arith, omega arith))
        | inr more ↦ inr ((mem-cells_from n (r + 1) p).1 (i, k, e, ground arith, omega arith, w))
      ]),
)

-- `cells` lists the positions of the board.
pub mem-cells : (p : Pos) → (p ∈ cells) ↔ (in_board p ≡ true)
unfolding cells
mem-cells p = (
  λ m.
      let (i, k, e, lo, hi, w) = (mem-cells_from gb_rows 0 p).0 m in
      (in_board_iff p).1 (i, k, e, omega arith, w),
  λ h.
      let (i, k, e, hi, w) = (in_board_iff p).0 h in
      (mem-cells_from gb_rows 0 p).1 (i, k, e, omega arith, omega arith, w),
)

row_cells-Distinct : (r n c : ℕ) → Distinct (row_cells r n c)
unfolding row_cells
row_cells-Distinct r zero c = tt
row_cells-Distinct r (suc n) c = (
  λ m. let (k, e, lo, hi) = (mem-row_cells r n (c + 1) (pos r, pos c)).0 m in ground arith,
  row_cells-Distinct r n (c + 1),
)

cells_from-Distinct : (n r : ℕ) → Distinct (cells_from n r)
unfolding cells_from
cells_from-Distinct zero r = tt
cells_from-Distinct (suc n) r =
    Distinct-append (row_cells r gb_cols 0) (cells_from n (r + 1)) (row_cells-Distinct r gb_cols 0)
      (cells_from-Distinct n (r + 1))
      λ p here later.
        let (k, e, lo, hi) = (mem-row_cells r gb_cols 0 p).0 here in
        let (i, k', e', lo', hi', w) = (mem-cells_from n (r + 1) p).0 later in
        ground (arith, sym e ∙ e')

-- It lists each once.
pub cells-Distinct : Distinct cells
unfolding cells
cells-Distinct = cells_from-Distinct gb_rows 0

pub length-cells : length cells ≡ 238
unfolding cells
length-cells = refl

-- Being neighbours goes both ways on the board.
pub neighbors_sym :
    (p q : Pos) → in_board p ≡ true → in_board q ≡ true → q ∈ neighbors p → p ∈ neighbors q
unfolding neighbors in_board
neighbors_sym (pos r, pos c) (pos r', pos c') hp hq m = ground arith
neighbors_sym (pos r, pos c) (pos r', negsuc c') hp hq m = absurd (ground arith)
neighbors_sym (pos r, pos c) (negsuc r', c') hp hq m = absurd (ground arith)
neighbors_sym (pos r, negsuc c) q hp hq m = absurd (ground arith)
neighbors_sym (negsuc r, c) q hp hq m = absurd (ground arith)
