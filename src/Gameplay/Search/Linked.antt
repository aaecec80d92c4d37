-- ===== src/Gameplay/Search/Linked.antt =====
-- What the search is to find: the cells that a chain of neighbours joins to a starting cell.
use puzzle_bubble.Prelude.{Bool, true, ◌≡◌, List, ◌∈◌}
use puzzle_bubble.Gameplay.Grid.{Pos, neighbors}

pub data Linked (admits : Pos → Bool) (sources : List Pos) : Pos → Type 0 where
  source : {p : Pos} → p ∈ sources → Linked admits sources p
  next :
      {p q : Pos}
      → Linked admits sources p
      → q ∈ neighbors p
      → admits q ≡ true
      → Linked admits sources q
