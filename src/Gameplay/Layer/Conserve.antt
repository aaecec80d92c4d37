-- ===== src/Gameplay/Layer/Conserve.antt =====
-- No bubble is lost when a layer is added, but for those of the last row.
use puzzle_bubble.Prelude.{
  ℕ, zero, suc, ◌+◌, ◌-◌, ◌≤◌, ◌<◌, ◌≡◌, refl, ap, ◌∙◌, ◌⊎◌, ◌≢◌, inl, inr, arith, ℤ, pos, negsuc,
  true, false, ◌&&◌, leb, ltb_ℤ, leb_ℤ, Bool-cases, Option-cases, if◌then◌else◌, is_neg, some, List,
  [], ◌∷◌, length, get_or, set, replicate, take, length-set, length-replicate,
}
use puzzle_bubble.Gameplay.Grid.{gb_rows, gb_cols, empty_cell}
use puzzle_bubble.Gameplay.Float.{Float}
use puzzle_bubble.Gameplay.State.{PlayerState, check_state}
use puzzle_bubble.Gameplay.Place.{radius, shift, cell_center, nearest_col}
use puzzle_bubble.Gameplay.Layer.{
  is_empty, search_row, nearest_empty_in_row, index, drop_in, press_row, press_rows, add_top_layer,
}

-- The bubbles of a row, and of several.
unfoldable pub bubbles : List ℤ → ℕ
bubbles [] = 0
bubbles (k ∷ ks) = (if is_neg k then 0 else 1) + bubbles ks

unfoldable pub all_bubbles : List (List ℤ) → ℕ
unfolding bubbles
all_bubbles [] = 0
all_bubbles (row ∷ rows) = bubbles row + all_bubbles rows

-- A row with fewer bubbles than cells has an empty cell.
hole : (row : List ℤ) → bubbles row < length row → (j : ℕ) × (is_empty row j ≡ true)
unfolding bubbles
hole [] h = absurd (omega arith)
hole (k ∷ ks) h = elim (Bool-cases (is_neg k)) [
  | inl free ↦ (0, ground arith)
  | inr full ↦ let (j, e) = hole ks (ground arith) in (suc j, ground arith)
]

differ : (row : List ℤ) (a b : ℕ) → is_empty row a ≡ true → is_empty row b ≡ false → a ≢ b
differ row a b h k e = ground (arith, e)

-- The loop over the distances finds an empty cell if there is one within its range.
search_row-finds :
    (row : List ℤ) (center n d j : ℕ)
    → is_empty row j ≡ true
    → ((d + j ≤ center) × (center < d + n + j)) ⊎ ((center + d ≤ j) × (j < center + d + n))
    → (k : ℕ) × (search_row row center n d ≡ some k) × (is_empty row k ≡ true)
unfolding search_row
search_row-finds row center zero d j e near = absurd (ground arith)
search_row-finds row center (suc n) d j e near =
    elim (Bool-cases (leb d center && is_empty row (center - d))) [
      | inl left ↦ (center - d, ground arith, ground arith)
      | inr not_left ↦ elim (Bool-cases (is_empty row (center + d))) [
        | inl right ↦ (center + d, ground arith, right)
        | inr not_right ↦
            let other_right = differ row j (center + d) e not_right in
            let other_left : (d ≤ center) → j ≢ center - d =
              λ le. differ row j (center - d) e (ground arith) in
            let (k, found, free) =
              search_row-finds row center n (d + 1) j e (ground (arith, other_right, other_left)) in
            (k, ground (arith, found), free)
      ]
    ]

bubbles-set :
    (row : List ℤ) (i : ℕ) (k : ℤ)
    → is_empty row i ≡ true
    → is_neg k ≡ false
    → bubbles (set row i k) ≡ suc (bubbles row)
unfolding bubbles
bubbles-set [] i k e h = absurd (ground arith)
bubbles-set (c ∷ cs) zero k e h = ground arith
bubbles-set (c ∷ cs) (suc i) k e h = ground (arith, bubbles-set cs i k (ground arith) h)

nearest_is :
    (row : List ℤ) (target : ℕ)
    → is_empty row target ≡ false
    → nearest_empty_in_row row target ≡ search_row row target (length row - 1) 1
unfolding nearest_empty_in_row
nearest_is row target e = rw e refl

-- Where there is an empty cell, the bubble finds one.
drop_in-bubbles :
    (row : List ℤ) (target : ℕ) (color : ℤ)
    → target < length row
    → bubbles row < length row
    → is_neg color ≡ false
    → bubbles (drop_in row target color) ≡ suc (bubbles row)
unfolding drop_in
drop_in-bubbles row target color inside room full =
    elim (Bool-cases (is_neg (get_or row target empty_cell))) [
      | inl free ↦ rw free (bubbles-set row target color (ground arith) full)
      | inr taken ↦
          let (j, e) = hole row room in
          let (k, found, free) =
            search_row-finds row target (length row - 1) 1 j e (ground arith) in
          let not_here : is_empty row target ≡ false = ground arith in
          rw (nearest_is row target not_here, taken, found) (bubbles-set row k color free full)
    ]

length-drop_in :
    (row : List ℤ) (target : ℕ) (color : ℤ) → length (drop_in row target color) ≡ length row
unfolding drop_in
length-drop_in row target color = elim (Bool-cases (is_neg (get_or row target empty_cell))) [
  | inl free ↦ rw free (length-set row target color)
  | inr taken ↦ elim (Option-cases (nearest_empty_in_row row target)) [
    | inl e ↦ rw (taken, e) refl
    | inr (alt, e) ↦ rw (taken, e) (length-set row alt color)
  ]
]

clamped :
    (col : ℤ)
    → index (if ltb_ℤ col (pos 0) then pos 0 else if leb_ℤ (pos 17) col then pos 16 else col) < 17
clamped (pos n) = ground arith
clamped (negsuc n) = ground arith

-- A row of the full size.
abbrev pub IsWide : List ℤ → Type 0
IsWide row = length row ≡ gb_cols

abbrev pub AllWide : List (List ℤ) → Type 0
AllWide [] = Unit
AllWide (row ∷ rows) = IsWide row × AllWide rows

bubbles_empty : (n : ℕ) → bubbles (replicate n empty_cell) ≡ 0
unfolding bubbles
bubbles_empty zero = refl
bubbles_empty (suc n) = omega (arith, bubbles_empty n)

module _ (fl : Float) where
  column_bound : (row : ℤ) (x : fl.F) → index (nearest_col fl row x) < 17
  unfolding nearest_col
  column_bound row x = clamped (
      fl.to_int
        (fl.round (fl.div (fl.sub (fl.sub x (radius fl)) (shift fl row)) (fl.of_int (pos 32)))))

  -- Each bubble of a row finds a place in a row that has room for them all.
  press_row-keeps :
      (r : ℕ) (colors : List ℤ) (c : ℕ) (row : List ℤ)
      → IsWide row
      → bubbles row + length colors ≤ 17
      → (bubbles (press_row fl r colors c row) ≡ bubbles row + bubbles colors)
        × IsWide (press_row fl r colors c row)
  unfolding press_row bubbles
  press_row-keeps r [] c row wide fits = (omega arith, wide)
  press_row-keeps r (color ∷ colors) c row wide fits =
      let target = index (nearest_col fl (pos (r + 1)) (cell_center fl (pos r, pos c)).0) in
      elim (Bool-cases (is_neg color)) [
        | inl none_here ↦
            let (kept, wide') = press_row-keeps r colors (c + 1) row wide (omega arith) in
            rw none_here (omega (arith, kept), wide')
        | inr full ↦
            let lt : target < length row = rw wide (column_bound (pos (r + 1)) _) in
            let grew = drop_in-bubbles row target color lt (omega (arith, wide)) full in
            let (kept, wide') =
              press_row-keeps r colors (c + 1) (drop_in row target color)
                (length-drop_in row target color ∙ wide) (omega (arith, grew)) in
            rw full (omega (arith, kept, grew), wide')
      ]

  press_rows-keeps :
      (r : ℕ) (rows : List (List ℤ))
      → AllWide rows
      → (all_bubbles (press_rows fl r rows) ≡ all_bubbles rows)
        × AllWide (press_rows fl r rows)
        × (length (press_rows fl r rows) ≡ length rows)
  unfolding press_rows all_bubbles
  press_rows-keeps r [] wide = (refl, tt, refl)
  press_rows-keeps r (row ∷ rows) wide =
      let (kept, wide') =
        press_row-keeps r row 0 (replicate gb_cols empty_cell) (length-replicate gb_cols empty_cell)
          (omega (arith, bubbles_empty gb_cols, wide.0)) in
      let (later, wide_later, same) = press_rows-keeps (r + 1) rows wide.1 in
      (omega (arith, kept, later, bubbles_empty gb_cols), (wide', wide_later), ap suc same)

  -- On 14 rows of 17 cells `AddTopLayer` loses no bubble but those of the last row, whatever the
  -- columns that the distances lead to: the new board is the row that was drawn above 13 rows of
  -- 17 cells which hold as many bubbles as the first 13 rows did.
  pub add_top_layer-conserves :
      (st : PlayerState fl.F) (top : List ℤ)
      → AllWide st.board
      → length st.board ≡ gb_rows
      → IsWide top
      → (all_bubbles (add_top_layer fl st top).board ≡ bubbles top + all_bubbles (take 13 st.board))
        × AllWide (add_top_layer fl st top).board
        × (length (add_top_layer fl st top).board ≡ gb_rows)
  unfolding add_top_layer check_state all_bubbles
  add_top_layer-conserves st top wide tall wide_top =
      let (kept, wide', same) =
        press_rows-keeps 0 (take 13 st.board) (take-AllWide 13 st.board wide) in
      (
        ap (λ (n : ℕ). bubbles top + n) kept,
        (wide_top, wide'),
        ap suc (same ∙ length-take 13 st.board (omega (arith, tall))),
      )
    where
      take-AllWide : (n : ℕ) (rows : List (List ℤ)) → AllWide rows → AllWide (take n rows)
      take-AllWide zero rows w = tt
      take-AllWide (suc n) [] w = tt
      take-AllWide (suc n) (row ∷ rows) w = (w.0, take-AllWide n rows w.1)

      length-take : (n : ℕ) (rows : List (List ℤ)) → n ≤ length rows → length (take n rows) ≡ n
      length-take zero rows le = refl
      length-take (suc n) [] le = absurd (omega arith)
      length-take (suc n) (row ∷ rows) le = ap suc (length-take n rows (omega arith))
