-- ===== src/Gameplay/Tests.antt =====
-- Runs on small boards.
use puzzle_bubble.Prelude.{
  true, ℕ, ◌≡◌, refl, ◌↔◌, inl, inr, pos, ◌&&◌, ◌||◌, if◌then◌else◌, ltb, ◌==◌, Option, none, some,
  [], ◌∷◌, ◌∈◌,
}
use puzzle_bubble.Gameplay.Grid.{
  Pos, Board, gb_rows, in_board, neighbors, cells, at, put, count_occupied,
}
use puzzle_bubble.Gameplay.Grid.Laws.{eq_pos, neighbors_sym}
use puzzle_bubble.Gameplay.Search.{Search, contains, start, run}
use puzzle_bubble.Gameplay.Search.Loop.{Found, start-Found}
use puzzle_bubble.Gameplay.State.{playing, win, lose, Draws, initial_rows, board_status}
use puzzle_bubble.Gameplay.State.Outcome.{
  initial_rows-IsBoard, IsCleared, ReachesBottom, board_status_lem,
}
use puzzle_bubble.Gameplay.Matches.{clear_matches}
use puzzle_bubble.Gameplay.Matches.Correct.{Cleared, clear_matches-Cleared}
use puzzle_bubble.Gameplay.Floating.{drop_floating}
use puzzle_bubble.Gameplay.Floating.Correct.{Dropped, drop_floating-Dropped}
use puzzle_bubble.Gameplay.Floating.Settled.{IsSettled, drop_floating-again}

-- Three bubbles of colour 1 in the top row, and one of colour 2 that hangs from nothing.
abbrev pub three : Draws
three = record {
  current = pos 1;
  next = pos 2;
  fills = λ r c. (ltb r 1 && ltb c 3) || (r == 3 && c == 9);
  color = λ r c. if r == 0 then pos 1 else pos 2;
}

abbrev pub board : Board
board = initial_rows three gb_rows 0

three_match : Option ℕ
unfolding initial_rows clear_matches
three_match = elim (clear_matches board (pos 0, pos 1)) [ none ↦ none | some (b, n) ↦ some n ]

three_go : three_match ≡ some 3
unfolding three_match at put neighbors in_board contains eq_pos
three_go = refl

one_drops : Option ℕ
unfolding initial_rows drop_floating
one_drops = elim (drop_floating board) [ none ↦ none | some (b, n) ↦ some n ]

one_goes : one_drops ≡ some 1
unfolding one_drops at put neighbors in_board contains eq_pos
one_goes = refl

goes_on : board_status board ≡ playing
unfolding initial_rows board_status count_occupied cells at
goes_on = refl

neighbors_sym_example : (pos 4, pos 6) ∈ neighbors (pos 3, pos 5)
unfolding neighbors in_board
neighbors_sym_example = neighbors_sym (pos 4, pos 6) (pos 3, pos 5) refl refl (inl refl)

clear_matches-Cleared_example : Cleared board (pos 0, pos 1) (clear_matches board (pos 0, pos 1))
unfolding initial_rows in_board at
clear_matches-Cleared_example =
    clear_matches-Cleared board (pos 0, pos 1) (initial_rows-IsBoard three) refl refl

drop_floating-Dropped_example : Dropped board (drop_floating board)
drop_floating-Dropped_example = drop_floating-Dropped board (initial_rows-IsBoard three)

drop_floating-again_example :
    (out : Board) × (n : ℕ) × (drop_floating board ≡ some (out, n))
    × IsSettled out
    × (again : Board) × (drop_floating out ≡ some (again, 0))
    × ((q : Pos) → in_board q ≡ true → at again q ≡ at out q)
drop_floating-again_example = drop_floating-again board (initial_rows-IsBoard three)

board_status_lem_example :
    ((board_status board ≡ win) ↔ IsCleared board)
    × ((board_status board ≡ lose) ↔ ReachesBottom board)
    × ((board_status board ≡ playing) ↔ ((¬ IsCleared board) × (¬ ReachesBottom board)))
board_status_lem_example = board_status_lem board

-- The search that may go everywhere on the board.
start-Found_example :
    (t : Search) × (run in_board 238 (start ((pos 3, pos 4) ∷ [])) ≡ some t)
    × Found in_board ((pos 3, pos 4) ∷ []) t
unfolding in_board
start-Found_example =
    start-Found in_board ((pos 3, pos 4) ∷ [])
      (record {
        start_in = λ p m. elim m [ inl e ↦ rw e refl | inr none_left ↦ absurd none_left ];
        admits_in = λ p h. h;
      })
      ((λ h. h), tt)
