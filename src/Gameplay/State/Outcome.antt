-- ===== src/Gameplay/State/Outcome.antt =====
-- What the status says of the board, and the shape of the first board.
use puzzle_bubble.Prelude.{
  ℕ, zero, suc, ◌+◌, ◌≤◌, ◌<◌, ◌≡◌, refl, ap, ◌↔◌, inl, inr, arith, pos, true, false, ◌==◌, ==_iff,
  Bool-cases, List, [], ◌∷◌, length, get_or, ◌∈◌,
}
use puzzle_bubble.Gameplay.Grid.{
  Pos, Board, gb_rows, gb_cols, in_board, occupied, cells, count_occupied,
}
use puzzle_bubble.Gameplay.Grid.Laws.{IsBoard, in_board_iff, mem-cells}
use puzzle_bubble.Gameplay.State.{
  playing, win, lose, Draws, initial_row, initial_rows, bottom_occupied, board_status,
}

count_zero :
    (b : Board) (ps : List Pos)
    → (count_occupied b ps ≡ 0) ↔ ((p : Pos) → p ∈ ps → occupied b p ≡ false)
unfolding count_occupied
count_zero b [] = (λ h p m. absurd m, λ h. refl)
count_zero b (p ∷ ps) = (
  λ h q m. elim m [
    | inl e ↦ rw e (ground arith)
    | inr later ↦ (count_zero b ps).0 (omega arith) q later
  ],
  λ h. ground (arith, h p (inl refl), (count_zero b ps).1 (λ q m. h q (inr m))),
)

bottom_occupied_iff :
    (b : Board) (n c : ℕ)
    → (bottom_occupied b n c ≡ true)
      ↔ ((k : ℕ) × (c ≤ k) × (k < c + n) × (occupied b (pos 13, pos k) ≡ true))
unfolding bottom_occupied
bottom_occupied_iff b zero c = (λ h. absurd (cc), λ (k, lo, hi, o). absurd (omega arith))
bottom_occupied_iff b (suc n) c =
    let ih = bottom_occupied_iff b n (c + 1) in
    elim (Bool-cases (occupied b (pos 13, pos c))) [
      | inl full ↦ (λ h. (c, omega arith, omega arith, full), λ t. rw full)
      | inr hole ↦ (
        λ h. let (k, lo, hi, o) = ih.0 (rw (hole) at h) in (k, omega arith, omega arith, o),
        λ (k, lo, hi, o). elim (Bool-cases (c == k)) [
          | inl same ↦ absurd (clash k same o hole)
          | inr more ↦ rw hole (ih.1 (k, ground arith, omega arith, o))
        ],
      )
    ]
  where
    clash :
        (k : ℕ)
        → (c == k) ≡ true
        → occupied b (pos 13, pos k) ≡ true
        → occupied b (pos 13, pos c) ≡ false
        → ⊥
    clash k same o hole = let e = (==_iff c k).0 same in ground arith

-- No cell of the board is occupied; some cell of its bottom row is.
abbrev pub IsCleared : Board → Type 0
IsCleared b = (p : Pos) → in_board p ≡ true → occupied b p ≡ false

abbrev pub ReachesBottom : Board → Type 0
ReachesBottom b = (k : ℕ) × (k < gb_cols) × (occupied b (pos 13, pos k) ≡ true)

IsCleared-iff : (b : Board) → ((count_occupied b cells == 0) ≡ true) ↔ IsCleared b
IsCleared-iff b = (
  λ h p inside. (count_zero b cells).0 ((==_iff _ 0).0 h) p ((mem-cells p).1 inside),
  λ h. (==_iff _ 0).1 ((count_zero b cells).1 (λ p m. h p ((mem-cells p).0 m))),
)

bottom_iff : (b : Board) → (bottom_occupied b gb_cols 0 ≡ true) ↔ ReachesBottom b
bottom_iff b = (
  λ h. let (k, lo, hi, o) = (bottom_occupied_iff b gb_cols 0).0 h in (k, omega arith, o),
  λ (k, hi, o). (bottom_occupied_iff b gb_cols 0).1 (k, omega arith, omega arith, o),
)

not_both : (b : Board) → IsCleared b → ¬ ReachesBottom b
not_both b clear (k, hi, o) =
    ground (
      arith,
      clear (pos 13, pos k) ((in_board_iff (pos 13, pos k)).1 (13, k, refl, omega arith, hi)),
    )

-- `checkState` says "win" exactly of an empty board, "lose" exactly if a bubble stands in the
-- bottom row, and "playing" exactly of the other boards.
pub board_status_lem :
    (b : Board)
    → ((board_status b ≡ win) ↔ IsCleared b)
      × ((board_status b ≡ lose) ↔ ReachesBottom b)
      × ((board_status b ≡ playing) ↔ ((¬ IsCleared b) × (¬ ReachesBottom b)))
unfolding board_status
board_status_lem b = elim (Bool-cases (count_occupied b cells == 0)) [
  | inl none_left ↦
      let clear = (IsCleared-iff b).0 none_left in
      rw none_left (
        (λ e. clear, λ h. refl),
        (λ e. absurd (cc), λ h. absurd (not_both b clear h)),
        (λ e. absurd (cc), λ h. absurd (h.0 clear)),
      )
  | inr some_left ↦
      let full : ¬ IsCleared b = λ h. ground (arith, (IsCleared-iff b).1 h) in
      elim (Bool-cases (bottom_occupied b gb_cols 0)) [
        | inl low ↦
            rw (some_left, low)
              (
                (λ e. absurd (cc), λ h. absurd (full h)),
                (λ e. (bottom_iff b).0 low, λ h. refl),
                (λ e. absurd (cc), λ h. absurd (h.1 ((bottom_iff b).0 low))),
              )
        | inr high ↦
            let above : ¬ ReachesBottom b = λ h. ground (arith, (bottom_iff b).1 h) in
            rw (some_left, high)
              (
                (λ e. absurd (cc), λ h. absurd (full h)),
                (λ e. absurd (cc), λ h. absurd (above h)),
                (λ e. (full, above), λ h. refl),
              )
      ]
]

length-initial_row : (d : Draws) (r n c : ℕ) → length (initial_row d r n c) ≡ n
unfolding initial_row
length-initial_row d r zero c = refl
length-initial_row d r (suc n) c = ap suc (length-initial_row d r n (c + 1))

initial_rows_size :
    (d : Draws) (n r : ℕ)
    → (length (initial_rows d n r) ≡ n)
      × ((i : ℕ) → i < n → length (get_or (initial_rows d n r) i []) ≡ gb_cols)
unfolding initial_rows
initial_rows_size d zero r = (refl, λ i h. absurd (omega arith))
initial_rows_size d (suc n) r =
    let (height, width) = initial_rows_size d n (r + 1) in (ap suc height, first_width width)
  where
    first_width :
        ((i : ℕ) → i < n → length (get_or (initial_rows d n (r + 1)) i []) ≡ gb_cols)
        → (i : ℕ) → i < suc n
        → length (get_or (initial_row d r gb_cols 0 ∷ initial_rows d n (r + 1)) i []) ≡ gb_cols
    first_width later zero h = length-initial_row d r gb_cols 0
    first_width later (suc i) h = later i (omega arith)

-- The first board has the full size.
pub initial_rows-IsBoard : (d : Draws) → IsBoard (initial_rows d gb_rows 0)
initial_rows-IsBoard d = record {
  height = (initial_rows_size d gb_rows 0).0;
  width = (initial_rows_size d gb_rows 0).1;
}
