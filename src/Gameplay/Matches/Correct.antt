-- ===== src/Gameplay/Matches/Correct.antt =====
-- `clearMatches` removes the group of the cell exactly if it has three cells or more.
use puzzle_bubble.Prelude.{
  ℕ, ◌+◌, ◌≡◌, refl, sym, ◌↔◌, inl, inr, arith, true, false, ◌&&◌, ltb, Bool-cases, if◌then◌else◌,
  not, eq_ℤ_iff, Option, some, List, [], ◌∷◌, length, ◌∈◌, Distinct,
}
use puzzle_bubble.Gameplay.Grid.{
  Pos, Board, empty_cell, at, put, in_board, occupied, cells, count_occupied,
}
use puzzle_bubble.Gameplay.Grid.Laws.{IsBoard, eq_pos_iff, at-put, put-IsBoard}
use puzzle_bubble.Gameplay.Grid.Count.{count-put-cells}
use puzzle_bubble.Gameplay.Search.{contains}
use puzzle_bubble.Gameplay.Search.Linked.{Linked, source, next}
use puzzle_bubble.Gameplay.Search.Loop.{last_eq, Bounded, Linked-in_board, start-Found}
use puzzle_bubble.Gameplay.Matches.{same_color, clear_all, clear_matches}

-- What removing a list of cells does: nothing else changes, and the count falls by its length.
pub record Clears (b : Board) (ps : List Pos) (b' : Board) : Type 0 where
  pub shape : IsBoard b'
  pub cleared : (q : Pos) → at b' q ≡ (if contains ps q then empty_cell else at b q)
  pub counted : count_occupied b' cells + length ps ≡ count_occupied b cells

pub clear_all-Clears :
    (b : Board) (ps : List Pos)
    → IsBoard b
    → Distinct ps
    → ((q : Pos) → q ∈ ps → in_board q ≡ true)
    → ((q : Pos) → q ∈ ps → occupied b q ≡ true)
    → Clears b ps (clear_all b ps)
unfolding clear_all contains
clear_all-Clears b [] shape d inside full = record {
  shape = shape;
  cleared = λ q. refl;
  counted = omega arith;
}
clear_all-Clears b (p ∷ ps) shape d inside full =
    let hp = inside p (inl refl) in
    let b₁ = put b p empty_cell in
    let rest =
      clear_all-Clears b₁ ps (put-IsBoard b shape empty_cell p hp) d.1 (λ q m. inside q (inr m))
        (λ q m. ground (
          arith,
          at-put b shape empty_cell p q hp,
          full q (inr m),
          (eq_pos_iff p q).0,
          λ (e : p ≡ q). d.0 (rw (sym e) at m),
        )) in
    record {
      shape = rest.shape;
      cleared = λ q. ground (arith, rest.cleared q, at-put b shape empty_cell p q hp);
      counted =
          ground (arith, rest.counted, count-put-cells b shape empty_cell p hp, full p (inl refl));
    }

-- The cells that a chain of neighbours of the colour of `p` joins to `p`.
abbrev pub SameGroup : Board → Pos → Pos → Type 0
SameGroup b p = Linked (same_color b (at b p)) (p ∷ [])

-- What `clearMatches` is to return: `group` lists the group of `p`, each cell once. If it has
-- three cells or more they are emptied, and their number is returned; if not, nothing changes.
pub record Cleared (b : Board) (p : Pos) (r : Option (Board × ℕ)) : Type 0 where
  pub out : Board
  pub removed : ℕ
  pub returns : r ≡ some (out, removed)
  pub group : List Pos
  pub distinct : Distinct group
  pub exact : (q : Pos) → (q ∈ group) ↔ SameGroup b p q
  pub count : removed ≡ (if ltb (length group) 3 then 0 else length group)
  pub cells_out :
      (q : Pos)
      → at out q ≡ (if not (ltb (length group) 3) && contains group q then empty_cell else at b q)
  pub shape : IsBoard out
  pub conserved : count_occupied out cells + removed ≡ count_occupied b cells

module _ (b : Board) (p : Pos) (shape : IsBoard b) (inside : in_board p ≡ true) where
  SameGroup-Bounded : Bounded (same_color b (at b p)) (p ∷ [])
  unfolding same_color
  SameGroup-Bounded = record {
    start_in = λ q m. rw (last_eq q p m) inside;
    admits_in = λ q ok. ground arith;
  }

  SameGroup-at : {q : Pos} → SameGroup b p q → at b q ≡ at b p
  unfolding same_color
  SameGroup-at {q} (source m) = rw (last_eq q p m)
  SameGroup-at {q} (next r n ok) = ground (arith, eq_ℤ_iff (at b q) (at b p))

  -- For a filled cell of a board of the full size, `clearMatches` returns: it collects each cell
  -- that a chain of neighbours of the same colour joins to the cell once; if they are three or
  -- more, exactly these cells are emptied and their number is returned, if not, the board stays
  -- as it is and the number is 0.
  pub clear_matches-Cleared : occupied b p ≡ true → Cleared b p (clear_matches b p)
  unfolding clear_matches
  clear_matches-Cleared full =
      let (t, runs, found) =
        start-Found (same_color b (at b p)) (p ∷ []) SameGroup-Bounded ((λ h. h), tt) in
      let keeps =
        clear_all-Clears b t.group shape found.distinct
          (λ q m.
            Linked-in_board (same_color b (at b p)) (p ∷ []) SameGroup-Bounded
              ((found.exact q).0 m))
          (λ q m. rw (SameGroup-at ((found.exact q).0 m)) full) in
      elim (Bool-cases (ltb (length t.group) 3)) [
        | inl few ↦ record {
          out = b;
          removed = 0;
          returns = ground (arith, runs);
          group = t.group;
          distinct = found.distinct;
          exact = found.exact;
          count = rw few;
          cells_out = λ q. rw few;
          shape = shape;
          conserved = omega arith;
        }
        | inr many ↦ record {
          out = clear_all b t.group;
          removed = length t.group;
          returns = ground (arith, runs);
          group = t.group;
          distinct = found.distinct;
          exact = found.exact;
          count = rw many;
          cells_out = λ q. rw many (keeps.cleared q);
          shape = keeps.shape;
          conserved = keeps.counted;
        }
      ]

-- An empty cell has no group.
pub clear_matches_empty :
    (b : Board) (p : Pos) → occupied b p ≡ false → clear_matches b p ≡ some (b, 0)
unfolding clear_matches
clear_matches_empty b p e = ground arith
