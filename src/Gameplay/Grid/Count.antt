-- ===== src/Gameplay/Grid/Count.antt =====
-- How many cells are occupied, and what a write does to that number.
use puzzle_bubble.Prelude.{
  ℕ, ◌+◌, ◌≡◌, ◌≢◌, refl, sym, ◌∙◌, inl, inr, arith, ℤ, Bool, true, not, is_neg, if◌then◌else◌,
  List, [], ◌∷◌, ◌∈◌, Distinct,
}
use puzzle_bubble.Gameplay.Grid.{Pos, Board, at, put, in_board, occupied, cells, count_occupied}
use puzzle_bubble.Gameplay.Grid.Laws.{IsBoard, eq_pos_iff, at-put, mem-cells, cells-Distinct}

abbrev pub bit : Bool → ℕ
bit b = if b then 1 else 0

count-congr :
    (a b : Board) (ps : List Pos)
    → ((p : Pos) → p ∈ ps → at a p ≡ at b p)
    → count_occupied a ps ≡ count_occupied b ps
unfolding count_occupied
count-congr a b [] h = refl
count-congr a b (p ∷ ps) h = ground (arith, h p (inl refl), count-congr a b ps (λ q m. h q (inr m)))

module _ (b : Board) (shape : IsBoard b) (v : ℤ) (p : Pos) (inside : in_board p ≡ true) where
  untouched : (q : Pos) → p ≢ q → at (put b p v) q ≡ at b q
  untouched q ne = ground (arith, at-put b shape v p q inside, eq_pos_iff p q)

  touched : at (put b p v) p ≡ v
  touched = ground (arith, at-put b shape v p p inside, (eq_pos_iff p p).1 refl)

  count-put :
      (ps : List Pos)
      → Distinct ps
      → p ∈ ps
      → count_occupied (put b p v) ps + bit (occupied b p)
        ≡ count_occupied b ps + bit (not (is_neg v))
  unfolding count_occupied
  count-put [] d m = absurd m
  count-put (q ∷ ps) d (inl e) = rw (← e) (
      rw
        (
          touched,
          count-congr (put b p v) b ps (λ x h. untouched x (λ e'. d.0 (rw (sym e' ∙ e) at h))),
        )
        (omega arith))
  count-put (q ∷ ps) d (inr m) =
      rw (untouched q (λ e. d.0 (rw e at m))) (omega (arith, count-put ps d.1 m))

  -- Over the whole board a write changes the count by the cell that it writes.
  pub count-put-cells :
      count_occupied (put b p v) cells + bit (occupied b p)
      ≡ count_occupied b cells + bit (not (is_neg v))
  count-put-cells = count-put cells cells-Distinct ((mem-cells p).1 inside)
