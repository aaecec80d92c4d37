-- ===== src/Gameplay/Floating/Correct.antt =====
-- `dropFloating` keeps exactly the bubbles that a chain of bubbles joins to the top row.
use puzzle_bubble.Prelude.{
  ℕ, zero, suc, ◌+◌, ◌≤◌, ◌<◌, ◌≡◌, refl, ◌∙◌, ◌↔◌, ◌⊎◌, inl, inr, arith, pos, true, ◌&&◌, ==_iff,
  ◌==◌, Bool-cases, if◌then◌else◌, not, Option, some, List, [], ◌∷◌, ◌∈◌, Distinct,
}
use puzzle_bubble.Gameplay.Grid.{
  Pos, Board, gb_cols, empty_cell, at, put, in_board, occupied, cells, count_occupied,
}
use puzzle_bubble.Gameplay.Grid.Laws.{
  IsBoard, eq_pos_iff, at-put, put-IsBoard, in_board_iff, mem-cells,
}
use puzzle_bubble.Gameplay.Grid.Count.{count-put-cells}
use puzzle_bubble.Gameplay.Search.{contains}
use puzzle_bubble.Gameplay.Search.Linked.{Linked, source, next}
use puzzle_bubble.Gameplay.Search.Loop.{contains_iff, Bounded, start-Found}
use puzzle_bubble.Gameplay.Floating.Anchored.{Anchored, top, under}
use puzzle_bubble.Gameplay.Floating.{filled, top_cells, hangs, sweep, drop_floating}

-- `p` is an occupied cell of the top row, in one of `n` columns from `c` on.
abbrev pub IsTop : Board → ℕ → ℕ → Pos → Type 0
IsTop b n c p = (k : ℕ) × (p ≡ (pos 0, pos k)) × (c ≤ k) × (k < c + n) × (occupied b p ≡ true)

IsTop-first :
    (b : Board) (n c : ℕ) (p : Pos)
    → p ≡ (pos 0, pos c)
    → occupied b (pos 0, pos c) ≡ true
    → IsTop b (suc n) c p
IsTop-first b n c p e full = (c, e, omega arith, omega arith, rw e full)

IsTop-later : (b : Board) (n c : ℕ) (p : Pos) → IsTop b n (c + 1) p → IsTop b (suc n) c p
IsTop-later b n c p (k, e, lo, hi, o) = (k, e, omega arith, omega arith, o)

IsTop-cases :
    (b : Board) (n c : ℕ) (p : Pos)
    → IsTop b (suc n) c p
    → ((p ≡ (pos 0, pos c)) × (occupied b (pos 0, pos c) ≡ true)) ⊎ IsTop b n (c + 1) p
IsTop-cases b n c p (k, e, lo, hi, o) = elim (Bool-cases (c == k)) [
  | inl same ↦ inl (rw ((==_iff c k).0 same) (e, rw e at o))
  | inr more ↦ inr (k, e, ground arith, omega arith, o)
]

pub mem-top_cells : (b : Board) (n c : ℕ) (p : Pos) → (p ∈ top_cells b n c) ↔ IsTop b n c p
unfolding top_cells
mem-top_cells b zero c p = (λ m. absurd m, λ (k, e, lo, hi, o). absurd (omega arith))
mem-top_cells b (suc n) c p =
    let ih = mem-top_cells b n (c + 1) p in
    elim (Bool-cases (occupied b (pos 0, pos c))) [
      | inl full ↦ rw full (
        elim [ inl e ↦ IsTop-first b n c p e full | inr m ↦ IsTop-later b n c p (ih.0 m) ],
        λ t. elim (IsTop-cases b n c p t) [ inl (e, _) ↦ inl e | inr later ↦ inr (ih.1 later) ],
      )
      | inr hole ↦ rw hole (
        λ m. IsTop-later b n c p (ih.0 m),
        λ t. elim (IsTop-cases b n c p t) [ inl (_, full) ↦ absurd (cc) | inr later ↦ ih.1 later ],
      )
    ]

top_cells-Distinct : (b : Board) (n c : ℕ) → Distinct (top_cells b n c)
unfolding top_cells
top_cells-Distinct b zero c = tt
top_cells-Distinct b (suc n) c = elim (Bool-cases (occupied b (pos 0, pos c))) [
  | inl full ↦ rw full (
    λ m. let (k, e, lo, hi, o) = (mem-top_cells b n (c + 1) (pos 0, pos c)).0 m in ground arith,
    top_cells-Distinct b n (c + 1),
  )
  | inr hole ↦ rw hole (top_cells-Distinct b n (c + 1))
]

-- A cell that the search reaches.
abbrev Reached : Board → Pos → Type 0
Reached b = Linked (filled b) (top_cells b gb_cols 0)

pub filled-Bounded : (b : Board) → Bounded (filled b) (top_cells b gb_cols 0)
unfolding filled
filled-Bounded b = record {
  start_in = λ p m.
      let (k, e, lo, hi, o) = (mem-top_cells b gb_cols 0 p).0 m in
      (in_board_iff p).1 (0, k, e, omega arith, omega arith);
  admits_in = λ p ok. ground arith;
}

-- The search reaches exactly what hangs from the top row.
anchored : (b : Board) {p : Pos} → Reached b p → Anchored b p
unfolding filled
anchored b {p} (source m) =
    let (k, e, lo, hi, full) = (mem-top_cells b gb_cols 0 p).0 m in top k e (omega arith) full
anchored b {p} (next r n ok) = under (anchored b r) n (ground arith) (ground arith)

reached : (b : Board) {p : Pos} → Anchored b p → Reached b p
unfolding filled
reached b {p} (top c e lt full) =
    source ((mem-top_cells b gb_cols 0 p).1 (c, e, omega arith, omega arith, full))
reached b {p} (under r n inside full) = next (reached b r) n (ground arith)

-- What the last loop does: it empties the occupied cells that were not visited, and counts them.
record Sweeps (vis ps : List Pos) (b : Board) (dropped : ℕ) (r : Board × ℕ) : Type 0 where
  shape : IsBoard r.0
  cells_out : (q : Pos) → at r.0 q ≡ (if contains ps q && hangs vis b q then empty_cell else at b q)
  conserved : count_occupied r.0 cells + r.1 ≡ count_occupied b cells + dropped

sweep-Sweeps :
    (vis ps : List Pos) (b : Board) (dropped : ℕ)
    → IsBoard b
    → ((q : Pos) → q ∈ ps → in_board q ≡ true)
    → Sweeps vis ps b dropped (sweep vis ps b dropped)
unfolding sweep contains
sweep-Sweeps vis [] b dropped shape inside = record {
  shape = shape;
  cells_out = λ q. refl;
  conserved = refl;
}
sweep-Sweeps vis (p ∷ ps) b dropped shape inside =
    let hp = inside p (inl refl) in
    let later = λ (q : Pos) (m : q ∈ ps). inside q (inr m) in
    elim (Bool-cases (hangs vis b p)) [
      | inl falls ↦
          let rest =
            sweep-Sweeps vis ps (put b p empty_cell) (dropped + 1)
              (put-IsBoard b shape empty_cell p hp) later in
          rw falls (record {
            shape = rest.shape;
            cells_out = λ q.
                rest.cells_out q
                ∙ ground (arith, at-put b shape empty_cell p q hp, (eq_pos_iff p q).0);
            conserved = ground (arith, rest.conserved, count-put-cells b shape empty_cell p hp);
          })
      | inr stays ↦
          let rest = sweep-Sweeps vis ps b dropped shape later in
          rw stays (record {
            shape = rest.shape;
            cells_out = λ q. rest.cells_out q ∙ ground (arith, (eq_pos_iff p q).0);
            conserved = rest.conserved;
          })
    ]

-- What `dropFloating` is to return: the anchored bubbles stay as they are, the others are gone,
-- and the number returned is how many went.
pub record Dropped (b : Board) (r : Option (Board × ℕ)) : Type 0 where
  pub out : Board
  pub dropped : ℕ
  pub returns : r ≡ some (out, dropped)
  pub shape : IsBoard out
  pub anchored : List Pos
  pub exact : (q : Pos) → (q ∈ anchored) ↔ Anchored b q
  pub cells_out :
      (q : Pos)
      → in_board q ≡ true
      → at out q ≡ (if occupied b q && not (contains anchored q) then empty_cell else at b q)
  pub conserved : count_occupied out cells + dropped ≡ count_occupied b cells

-- On a board of the full size `dropFloating` returns: exactly the filled cells that no chain of
-- filled neighbours joins to the top row are emptied, and their number is returned.
pub drop_floating-Dropped : (b : Board) → IsBoard b → Dropped b (drop_floating b)
unfolding drop_floating
drop_floating-Dropped b shape =
    let (t, runs, found) =
      start-Found (filled b) (top_cells b gb_cols 0) (filled-Bounded b)
        (top_cells-Distinct b gb_cols 0) in
    let swept = sweep-Sweeps t.vis cells b 0 shape (λ q m. (mem-cells q).0 m) in
    record {
      out = (sweep t.vis cells b 0).0;
      dropped = (sweep t.vis cells b 0).1;
      returns = ground (arith, runs);
      shape = swept.shape;
      anchored = t.vis;
      exact = λ q.
          rw found.visited
            (λ m. anchored b ((found.exact q).0 m), λ a. (found.exact q).1 (reached b a));
      cells_out = λ q inside.
          ground (arith, swept.cells_out q, (contains_iff cells q).1 ((mem-cells q).1 inside));
      conserved = omega (arith, swept.conserved);
    }
