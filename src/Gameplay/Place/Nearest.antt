-- ===== src/Gameplay/Place/Nearest.antt =====
-- `findNearestEmpty` returns a free cell around the base that no other free one is nearer than.
use puzzle_bubble.Prelude.{
  ◌≡◌, refl, sym, ◌⊎◌, inl, inr, arith, pos, negsuc, leb_ℤ, true, false, not, ◌||◌, Bool-cases,
  if◌then◌else◌, none, some, List, [], ◌∷◌, foldl, ◌∈◌, ◌++◌, mem-append,
}
use mathlib.Core.List.{append_assoc, append-nil}
use puzzle_bubble.Gameplay.Search.Loop.{last_eq}
use puzzle_bubble.Gameplay.Grid.{Pos, Board, in_board, occupied, clamp_cell}
use puzzle_bubble.Gameplay.Grid.Laws.{in_board_iff}
use puzzle_bubble.Gameplay.Float.{Float}
use puzzle_bubble.Gameplay.Place.{
  around, nearest_cell, distance, Best, closer, find_nearest_empty, landing,
}

-- A free cell of the board.
abbrev pub IsFree : Board → Pos → Type 0
IsFree b p = (in_board p ≡ true) × (occupied b p ≡ false)

-- What the program relies on of `<`, at the numbers that it compares: no number is below itself,
-- and the order is transitive.
pub record IsOrder (fl : Float) : Type 0 where
  pub irreflexive : (a : fl.F) → fl.lt a a ≡ false
  pub transitive : (a b c : fl.F) → fl.lt a b ≡ true → fl.lt b c ≡ true → fl.lt a c ≡ true

some_inj : (a p : Pos) → some a ≡ some p → a ≡ p
some_inj a p h = cc

pub clamp_cell-in_board : (p : Pos) → in_board (clamp_cell p) ≡ true
unfolding clamp_cell in_board
clamp_cell-in_board (pos r, pos c) = ground arith
clamp_cell-in_board (pos r, negsuc c) = ground arith
clamp_cell-in_board (negsuc r, pos c) = ground arith
clamp_cell-in_board (negsuc r, negsuc c) = ground arith

module _ (fl : Float) (b : Board) where
  pub found_some :
      (best : Best fl)
      → IsFree b best.cell
      → (if leb_ℤ (pos 0) (best.cell).0 then some best.cell else none) ≡ some best.cell
  found_some best free =
      let (r, c, e, hr, hc) = (in_board_iff best.cell).0 free.0 in rw e (ground arith)

module _ (fl : Float) (order : IsOrder fl) (b : Board) (x y : fl.F) where
  -- After the positions of `ps`: no free one of them is nearer than `best`, and `best` is either
  -- still the first value or a free one of `ps` with its distance.
  record Tried (ps : List Pos) (best : Best fl) : Type 0 where
    least : (q : Pos) → q ∈ ps → IsFree b q → fl.lt (distance fl x y q) best.dist ≡ false
    held :
        (best ≡ record { dist = fl.max_float; cell = (negsuc 0, negsuc 0) })
        ⊎ ((best.cell ∈ ps) × IsFree b best.cell × (best.dist ≡ distance fl x y best.cell))

  closer-Tried :
      (done : List Pos) (best : Best fl) (p : Pos)
      → Tried done best
      → Tried (done ++ p ∷ []) (closer fl b x y best p)
  unfolding closer
  closer-Tried done best p t = elim (Bool-cases (not (in_board p) || occupied b p)) [
    | inl skip ↦ rw skip (record {
      least = λ q m free. elim ((mem-append q done (p ∷ [])).0 m) [
        | inl old ↦ t.least q old free
        | inr last ↦ absurd (not_free p skip (rw (last_eq q p last) at free))
      ];
      held = keep t.held;
    })
    | inr open_cell ↦ elim (Bool-cases (fl.lt (distance fl x y p) best.dist)) [
      | inl near ↦
          rw (open_cell, near)
            (record {
              least = λ q m free. elim ((mem-append q done (p ∷ [])).0 m) [
                | inl old ↦ ground (
                  arith,
                  t.least q old free,
                  order.transitive (distance fl x y q) (distance fl x y p) best.dist,
                )
                | inr last ↦ rw (last_eq q p last) (order.irreflexive _)
              ];
              held = inr ((mem-append p done (p ∷ [])).1 (inr (inl refl)), ground arith, refl);
            })
      | inr far ↦
          rw (open_cell, far)
            (record {
              least = λ q m free. elim ((mem-append q done (p ∷ [])).0 m) [
                | inl old ↦ t.least q old free
                | inr last ↦ rw (last_eq q p last) far
              ];
              held = keep t.held;
            })
    ]
  ]
    where
      not_free : (a : Pos) → (not (in_board a) || occupied b a) ≡ true → ¬ IsFree b a
      not_free a skip free = ground arith

      keep :
          (best ≡ record { dist = fl.max_float; cell = (negsuc 0, negsuc 0) })
            ⊎ ((best.cell ∈ done) × IsFree b best.cell × (best.dist ≡ distance fl x y best.cell))
          → (best ≡ record { dist = fl.max_float; cell = (negsuc 0, negsuc 0) })
            ⊎ ((best.cell ∈ (done ++ p ∷ []))
                × IsFree b best.cell
                × (best.dist ≡ distance fl x y best.cell))
      keep (inl first) = inl first
      keep (inr (m, free, e)) = inr ((mem-append best.cell done (p ∷ [])).1 (inl m), free, e)

  all-Tried :
      (done ps : List Pos) (best : Best fl)
      → Tried done best
      → Tried (done ++ ps) (foldl (closer fl b x y) best ps)
  all-Tried done [] best t = rw (append-nil done) t
  all-Tried done (p ∷ ps) best t =
      rw (sym (append_assoc done (p ∷ []) ps))
        (all-Tried (done ++ p ∷ []) ps (closer fl b x y best p) (closer-Tried done best p t))

  -- With every distance below `math.MaxFloat64`: `findNearestEmpty` fails exactly if no cell
  -- around the base is free, and otherwise returns a free one that no other is nearer than.
  pub find_nearest_empty_lem :
      (base : Pos)
      → ((q : Pos) → fl.lt (distance fl x y q) fl.max_float ≡ true)
      → ((find_nearest_empty fl b base x y ≡ none) × ((q : Pos) → q ∈ around base → ¬ IsFree b q))
        ⊎ ((p : Pos) × (find_nearest_empty fl b base x y ≡ some p)
            × (p ∈ around base)
            × IsFree b p
            × ((q : Pos)
                → q ∈ around base
                → IsFree b q
                → fl.lt (distance fl x y q) (distance fl x y p) ≡ false))
  unfolding find_nearest_empty
  find_nearest_empty_lem base finite =
      let none_yet : Best fl = record { dist = fl.max_float; cell = (negsuc 0, negsuc 0) } in
      let best = foldl (closer fl b x y) none_yet (around base) in
      let t =
        all-Tried [] (around base) none_yet
          (record { least = λ q m free. absurd m; held = inl refl }) in
      elim t.held [
        | inl first ↦ inl (rw first, λ q m free. ground (arith, t.least q m free, finite q, first))
        | inr (m, free, e) ↦
            inr (_, found_some fl b best free, m, free, λ q m' free'. rw (← e) (t.least q m' free'))
      ]

module _ (fl : Float) (b : Board) (x y : fl.F) where
  -- Whatever the order of the numbers, `best` is a free cell or the first value.
  abbrev Held : Best fl → Type 0
  Held best = (best.cell ≡ (negsuc 0, negsuc 0)) ⊎ IsFree b best.cell

  closer-Held : (best : Best fl) (p : Pos) → Held best → Held (closer fl b x y best p)
  unfolding closer
  closer-Held best p h = ground arith

  all-Held : (ps : List Pos) (best : Best fl) → Held best → Held (foldl (closer fl b x y) best ps)
  all-Held [] best h = h
  all-Held (p ∷ ps) best h = all-Held ps (closer fl b x y best p) (closer-Held best p h)

  found-IsFree :
      (best : Best fl) (p : Pos)
      → Held best
      → (if leb_ℤ (pos 0) (best.cell).0 then some best.cell else none) ≡ some p
      → IsFree b p
  found-IsFree best p (inl e) h = absurd (first_none e h)
    where
      first_none :
          best.cell ≡ (negsuc 0, negsuc 0)
          → (if leb_ℤ (pos 0) (best.cell).0 then some best.cell else none) ≡ some p
          → ⊥
      first_none e h = ground arith
  found-IsFree best p (inr free) h = ground (arith, found_some fl b best free)

  pub find_nearest_empty-IsFree :
      (base p : Pos) → find_nearest_empty fl b base x y ≡ some p → IsFree b p
  unfolding find_nearest_empty
  find_nearest_empty-IsFree base p h =
      found-IsFree
        (foldl (closer fl b x y) (record { dist = fl.max_float; cell = (negsuc 0, negsuc 0) })
          (around base))
        p (all-Held (around base) _ (inl refl)) h

  -- The cell in which a bubble comes to rest lies on the board and is empty, wherever the client
  -- says that the bubble is.
  pub landing-IsFree : (p : Pos) → landing fl b x y ≡ some p → IsFree b p
  unfolding landing
  landing-IsFree p h = elim (Bool-cases (occupied b (clamp_cell (nearest_cell fl x y)))) [
    | inl taken ↦ find_nearest_empty-IsFree _ p (rw taken at h)
    | inr open_cell ↦
        rw (← some_inj _ p (rw open_cell at h))
          (clamp_cell-in_board (nearest_cell fl x y), open_cell)
  ]
