-- ===== src/Gameplay/Search.antt =====
-- internal/gameplay/engine.go: the breadth-first search that `clearMatches` and `dropFloating`
-- both write out. They differ in the cells that they admit and in where they start; `admits` is
-- the negation of the first `continue` of the inner loop.
pub mod Linked
pub mod Loop
use package.puzzle_bubble.Prelude.{
  ℕ, zero, suc, Bool, true, false, ◌||◌, if◌then◌else◌, Option, none, some, List, [], ◌∷◌, ◌++◌,
  foldl,
}
use puzzle_bubble.Gameplay.Grid.{Pos, neighbors}
use puzzle_bubble.Gameplay.Grid.Laws.{eq_pos}

-- `_, ok := vis[key]`.
unfoldable pub contains : List Pos → Pos → Bool
contains [] p = false
contains (q ∷ qs) p = eq_pos q p || contains qs p

-- `q`, `vis` and `group`. The set `vis` is the list of its keys.
pub record Search : Type 0 where
  pub queue : List Pos
  pub vis : List Pos
  pub group : List Pos

-- The queue and `vis` before the loop.
unfoldable pub start : List Pos → Search
start sources = record { queue = sources; vis = sources; group = [] }

module _ (admits : Pos → Bool) where
  -- The body of `for _, n := range neighbors(p.r, p.c)`.
  pub offer : Search → Pos → Search
  offer s n =
      if admits n
      then if contains s.vis n
        then s
        else record s { vis = s.vis ++ n ∷ []; queue = s.queue ++ n ∷ [] }
      else s

  -- One round of `for len(q) > 0`, after `p` left the head of the queue.
  pub expand : Search → Pos → List Pos → Search
  unfolding offer
  expand s p rest = foldl offer (record s { queue = rest; group = s.group ++ p ∷ [] }) (neighbors p)

  -- The loop; `none` is a run out of fuel.
  unfoldable pub run : ℕ → Search → Option Search
  unfolding expand
  run zero s = elim s.queue [ [] ↦ some s | _ ∷ _ ↦ none ]
  run (suc fuel) s = elim s.queue [ [] ↦ some s | p ∷ rest ↦ run fuel (expand s p rest) ]
