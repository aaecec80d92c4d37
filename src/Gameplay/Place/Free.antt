-- ===== src/Gameplay/Place/Free.antt =====
-- When a bubble finds no cell, and which cell it finds otherwise, whatever the order of numbers.
use puzzle_bubble.Prelude.{
  ◌≡◌, refl, sym, ◌⊎◌, inl, inr, arith, negsuc, true, false, not, ◌||◌, Bool-cases, none, some,
  List, [], ◌∷◌, foldl, ◌∈◌, ◌++◌, mem-append,
}
use mathlib.Core.List.{append_assoc, append-nil}
use puzzle_bubble.Gameplay.Search.Loop.{last_eq}
use puzzle_bubble.Gameplay.Grid.{Pos, Board, in_board, occupied, clamp_cell}
use puzzle_bubble.Gameplay.Float.{Float}
use puzzle_bubble.Gameplay.Place.{
  around, nearest_cell, distance, Best, closer, find_nearest_empty, landing,
}
use puzzle_bubble.Gameplay.Place.Nearest.{IsFree, found_some, clamp_cell-in_board}

module _ (fl : Float) (b : Board) (x y : fl.F) where
  abbrev none_yet : Best fl
  none_yet = record { dist = fl.max_float; cell = (negsuc 0, negsuc 0) }

  -- No free cell of `ps` is at a distance below the largest number.
  abbrev pub IsNowhere : List Pos → Type 0
  IsNowhere ps = (q : Pos) → q ∈ ps → IsFree b q → fl.lt (distance fl x y q) fl.max_float ≡ false

  -- The value is the first one, and none of `ps` can replace it, or it is a free cell of `ps`.
  abbrev Tells : List Pos → Best fl → Type 0
  Tells ps best = ((best ≡ none_yet) × IsNowhere ps) ⊎ ((best.cell ∈ ps) × IsFree b best.cell)

  not-IsFree : (a : Pos) → (not (in_board a) || occupied b a) ≡ true → ¬ IsFree b a
  not-IsFree a skip free = ground arith

  is_free : (a : Pos) → (not (in_board a) || occupied b a) ≡ false → IsFree b a
  is_free a open_cell = ground arith

  IsNowhere-append :
      (done : List Pos) (p : Pos)
      → IsNowhere done
      → (IsFree b p → fl.lt (distance fl x y p) fl.max_float ≡ false)
      → IsNowhere (done ++ p ∷ [])
  IsNowhere-append done p far last q m free = elim ((mem-append q done (p ∷ [])).0 m) [
    | inl old ↦ far q old free
    | inr new ↦ rw (last_eq q p new) (last (rw (last_eq q p new) at free))
  ]

  closer-Tells :
      (done : List Pos) (best : Best fl) (p : Pos)
      → Tells done best
      → Tells (done ++ p ∷ []) (closer fl b x y best p)
  unfolding closer
  closer-Tells done best p t = elim (Bool-cases (not (in_board p) || occupied b p)) [
    | inl skip ↦ rw (closer, skip) (still t (λ free. absurd (not-IsFree p skip free)))
    | inr open_cell ↦ elim (Bool-cases (fl.lt (distance fl x y p) best.dist)) [
      | inl near ↦
          rw (closer, open_cell, near)
            (inr ((mem-append p done (p ∷ [])).1 (inr (inl refl)), is_free p open_cell))
      | inr far ↦ rw (closer, open_cell, far) (beaten t far)
    ]
  ]
    where
      still :
          Tells done best
          → (IsFree b p → fl.lt (distance fl x y p) fl.max_float ≡ false)
          → Tells (done ++ p ∷ []) best
      still (inl (e, far)) last = inl (e, IsNowhere-append done p far last)
      still (inr (m, free)) last = inr ((mem-append best.cell done (p ∷ [])).1 (inl m), free)

      beaten :
          Tells done best
          → fl.lt (distance fl x y p) best.dist ≡ false
          → Tells (done ++ p ∷ []) best
      beaten (inl (e, far)) h = inl (e, IsNowhere-append done p far (λ free. rw e at h))
      beaten (inr (m, free)) h = inr ((mem-append best.cell done (p ∷ [])).1 (inl m), free)

  all-Tells :
      (done ps : List Pos) (best : Best fl)
      → Tells done best
      → Tells (done ++ ps) (foldl (closer fl b x y) best ps)
  all-Tells done [] best t = rw (append-nil done) t
  all-Tells done (p ∷ ps) best t =
      rw (sym (append_assoc done (p ∷ []) ps))
        (all-Tells (done ++ p ∷ []) ps (closer fl b x y best p) (closer-Tells done best p t))

  nearest_cases :
      (base : Pos)
      → ((find_nearest_empty fl b base x y ≡ none) × IsNowhere (around base))
        ⊎ ((p : Pos) × (find_nearest_empty fl b base x y ≡ some p) × (p ∈ around base) × IsFree b p)
  unfolding find_nearest_empty
  nearest_cases base =
      elim (all-Tells [] (around base) none_yet (inl (refl, λ q m free. absurd m))) [
        | inl (e, far) ↦ inl (rw e refl, far)
        | inr (m, free) ↦
            inr (_, found_some fl b (foldl (closer fl b x y) none_yet (around base)) free, m, free)
      ]

  -- The cell that the bubble is nearest to, moved onto the board.
  abbrev pub base_cell : Pos
  base_cell = clamp_cell (nearest_cell fl x y)

  -- The cell the bubble is at is taken, and none around it is free.
  abbrev pub IsCrowded : Type 0
  IsCrowded = (occupied b base_cell ≡ true) × IsNowhere (around base_cell)

  -- `p` is free, and it is the cell the bubble is at or, that being taken, one around it.
  abbrev pub IsLanding : Pos → Type 0
  IsLanding p =
      IsFree b p × ((p ≡ base_cell) ⊎ ((occupied b base_cell ≡ true) × (p ∈ around base_cell)))

  pub landing_cases :
      ((landing fl b x y ≡ none) × IsCrowded)
      ⊎ ((p : Pos) × (landing fl b x y ≡ some p) × IsLanding p)
  unfolding landing
  landing_cases = elim (Bool-cases (occupied b base_cell)) [
    | inr open_cell ↦ inr (
      base_cell,
      rw (landing, open_cell) refl,
      ((clamp_cell-in_board (nearest_cell fl x y), open_cell), inl refl),
    )
    | inl taken ↦ elim (nearest_cases base_cell) [
      | inl (e, far) ↦ inl (rw (landing, taken) e, (taken, far))
      | inr (p, e, m, free) ↦ inr (p, rw (landing, taken) e, (free, inr (taken, m)))
    ]
  ]
