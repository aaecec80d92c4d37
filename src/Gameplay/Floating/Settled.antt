-- ===== src/Gameplay/Floating/Settled.antt =====
-- After `dropFloating` nothing floats.
use puzzle_bubble.Prelude.{
  ℕ, some, [], ◌∷◌, refl, ◌∙◌, ◌≡◌, ◌↔◌, inl, inr, arith, true, ◌&&◌, not, List, ◌∈◌, Bool-cases,
  negsuc, if◌then◌else◌,
}
use puzzle_bubble.Gameplay.Grid.{Pos, Board, at, in_board, occupied, cells, count_occupied}
use puzzle_bubble.Gameplay.Grid.Laws.{IsBoard, mem-cells}
use puzzle_bubble.Gameplay.Search.{contains}
use puzzle_bubble.Gameplay.Search.Loop.{contains_iff}
use puzzle_bubble.Gameplay.Floating.{filled, drop_floating}
use puzzle_bubble.Gameplay.Floating.Correct.{Dropped, drop_floating-Dropped}
use puzzle_bubble.Gameplay.Floating.Anchored.{Anchored, top, under, Anchored-in_board}

-- Every bubble of the board is anchored.
abbrev pub IsSettled : Board → Type 0
IsSettled b = (q : Pos) → filled b q ≡ true → Anchored b q

module _ (b out : Board) (anchored : List Pos) (exact : (q : Pos) → (q ∈ anchored) ↔ Anchored b q)
    (cells_out : (q : Pos)
      → in_board q ≡ true
      → at out q ≡ (if occupied b q && not (contains anchored q) then negsuc 0 else at b q)) where
  kept : {q : Pos} → Anchored b q → at out q ≡ at b q
  kept {q} a =
      let hit : contains anchored q ≡ true = (contains_iff anchored q).1 ((exact q).1 a) in
      ground (arith, cells_out q (Anchored-in_board b a))

  stays : {q : Pos} → Anchored b q → Anchored out q
  stays {q} (top c e lt full) = top c e lt (rw (kept (top c e lt full)) full)
  stays {q} (under r n inside full) =
      under (stays r) n inside (rw (kept (under r n inside full)) full)

  settled : IsSettled out
  unfolding filled
  settled q ok = elim (Bool-cases (contains anchored q)) [
    | inl hit ↦ stays ((exact q).0 ((contains_iff anchored q).0 hit))
    | inr miss ↦ absurd (ground (arith, cells_out q (ground arith)))
  ]

pub Dropped-IsSettled : (b : Board) (d : Dropped b (drop_floating b)) → IsSettled d.out
Dropped-IsSettled b d = settled b d.out d.anchored d.exact d.cells_out

count-same :
    (b b' : Board) (ps : List Pos)
    → ((q : Pos) → q ∈ ps → at b q ≡ at b' q)
    → count_occupied b ps ≡ count_occupied b' ps
unfolding count_occupied
count-same b b' [] same = refl
count-same b b' (p ∷ ps) same =
    ground (arith, same p (inl refl), count-same b b' ps (λ q m. same q (inr m)))

-- A board on which every bubble is anchored keeps them all.
settled-keeps :
    (b : Board) (d : Dropped b (drop_floating b))
    → IsSettled b
    → (q : Pos) → in_board q ≡ true
    → at d.out q ≡ at b q
unfolding filled
settled-keeps b d rests q inside = elim (Bool-cases (occupied b q)) [
  | inr hole ↦ d.cells_out q inside ∙ rw hole refl
  | inl full ↦
      let hit : contains d.anchored q ≡ true =
        (contains_iff d.anchored q).1 ((d.exact q).1 (rests q (ground (arith, inside, full)))) in
      d.cells_out q inside ∙ rw (full, hit) refl
]

-- On a board of the full size `dropFloating` leaves only bubbles that a chain of bubbles joins to
-- the top row, and called again on the board that it returned it drops none and changes no cell.
pub drop_floating-again :
    (b : Board)
    → IsBoard b
    → (out : Board) × (n : ℕ) × (drop_floating b ≡ some (out, n))
      × IsSettled out
      × (again : Board) × (drop_floating out ≡ some (again, 0))
      × ((q : Pos) → in_board q ≡ true → at again q ≡ at out q)
drop_floating-again b shape =
    let d = drop_floating-Dropped b shape in
    let rests = Dropped-IsSettled b d in
    let d' = drop_floating-Dropped d.out d.shape in
    let keeps = settled-keeps d.out d' rests in
    let same = count-same d'.out d.out cells (λ q m. keeps q ((mem-cells q).0 m)) in
    let nothing : d'.dropped ≡ 0 = omega (arith, d'.conserved, same) in
    (d.out, d.dropped, d.returns, rests, d'.out, rw (← nothing) d'.returns, keeps)
