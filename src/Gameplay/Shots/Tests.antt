-- ===== src/Gameplay/Shots/Tests.antt =====
-- Runs of shots.
use puzzle_bubble.Prelude.{
  replicate, take, length, ◌+◌, ◌≡◌, refl, ◌⊎◌, inl, inr, arith, ℤ, pos, negsuc, true, false,
  Option, none, some, [], ◌∷◌, ◌∈◌,
}
use puzzle_bubble.Gameplay.Grid.{gb_rows, Pos, in_board, at}
use puzzle_bubble.Gameplay.Float.Whole.{below, whole}
use puzzle_bubble.Gameplay.State.{check_state, PlayerState, initial_rows, new_initial_state}
use puzzle_bubble.Gameplay.State.Outcome.{initial_rows-IsBoard}
use puzzle_bubble.Gameplay.Place.{
  cell_center, nearest_col, around, distance, find_nearest_empty, landing, settle,
}
use puzzle_bubble.Gameplay.Place.Nearest.{IsFree, IsOrder, find_nearest_empty_lem, landing-IsFree}
use puzzle_bubble.Gameplay.Place.Settle.{Settles, settle-Settles}
use puzzle_bubble.Gameplay.Layer.{add_top_layer, press_row, press_rows, drop_in}
use puzzle_bubble.Gameplay.Layer.Conserve.{bubbles, all_bubbles, AllWide, add_top_layer-conserves}
use puzzle_bubble.Gameplay.Tests.{three, board}
use puzzle_bubble.Gameplay.Shots.{
  Result, ok, err, game_already_finished, no_pending_shot, clamp_aim, begun, begin_client_shot,
  commit_landing, outside, reported, tick,
}
use puzzle_bubble.Gameplay.Shots.Aim.{clamp_aim_bounds}
use puzzle_bubble.Gameplay.Shots.Invariant.{IsValid, Keeps, tick-Keeps}
use puzzle_bubble.Gameplay.Shots.Landing.{Lands, commit_landing-once, begin-commit-Lands}
use puzzle_bubble.Gameplay.Shots.History.{
  ticks, fires, begins, replay, AreColors, new_initial_state-IsValid, replay-initial-IsValid,
}

below_irreflexive : (a : Option ℤ) → below a a ≡ false
below_irreflexive none = refl
below_irreflexive (some (pos n)) = ground arith
below_irreflexive (some (negsuc n)) = ground arith

below_trans : (a b c : Option ℤ) → below a b ≡ true → below b c ≡ true → below a c ≡ true
below_trans none b c h k = absurd (cc)
below_trans (some a) none c h k = absurd (cc)
below_trans (some a) (some b) none h k = refl
below_trans (some (pos a)) (some (pos b)) (some (pos c)) h k = ground arith
below_trans (some (pos a)) (some (pos b)) (some (negsuc c)) h k = ground arith
below_trans (some (pos a)) (some (negsuc b)) (some (pos c)) h k = ground arith
below_trans (some (pos a)) (some (negsuc b)) (some (negsuc c)) h k = ground arith
below_trans (some (negsuc a)) (some (pos b)) (some (pos c)) h k = ground arith
below_trans (some (negsuc a)) (some (pos b)) (some (negsuc c)) h k = ground arith
below_trans (some (negsuc a)) (some (negsuc b)) (some (pos c)) h k = ground arith
below_trans (some (negsuc a)) (some (negsuc b)) (some (negsuc c)) h k = ground arith

whole-IsOrder : IsOrder whole
whole-IsOrder = record { irreflexive = below_irreflexive; transitive = below_trans }

three-AreColors : AreColors three
three-AreColors = record { current = omega arith; next = omega arith; cell = λ r c. ground arith }

abbrev first : PlayerState (Option ℤ)
first = new_initial_state whole three (pos 0)

first-IsValid : IsValid first
first-IsValid = new_initial_state-IsValid whole three (pos 0) three-AreColors

clamp_aim_bounds_example :
    (below (clamp_aim whole (some (pos 5))) (some (negsuc 169)) ≡ false)
    × (below (some (negsuc 9)) (clamp_aim whole (some (pos 5))) ≡ false)
    × (clamp_aim whole (clamp_aim whole (some (pos 5))) ≡ clamp_aim whole (some (pos 5)))
clamp_aim_bounds_example = clamp_aim_bounds whole (some (pos 5)) whole-IsOrder refl

replay-initial-IsValid_example : IsValid (
    replay whole first
      (fires (some (pos 3)) ∷ ticks (pos 1000) (pos 4) ∷ begins (some (pos 3)) (pos 1000) ∷ []))
replay-initial-IsValid_example =
    replay-initial-IsValid whole three (pos 0)
      (fires (some (pos 3)) ∷ ticks (pos 1000) (pos 4) ∷ begins (some (pos 3)) (pos 1000) ∷ [])
      three-AreColors (tt, (omega arith, (tt, tt)))

tick-Keeps_example : Keeps (tick whole first (pos 1000) (pos 4))
tick-Keeps_example = tick-Keeps whole first (pos 1000) (pos 4) first-IsValid (omega arith)

-- A bubble of colour 1 comes to rest beside the three of that colour.
abbrev begun_first : PlayerState (Option ℤ)
begun_first = begun whole first (some (negsuc 89)) (pos 7)

first_Lands :
    Lands whole
      (reported whole begun_first (some (negsuc 89)) (some (pos 112)) (some (pos 16)))
      (pos 1)
      (some (pos 112))
      (some (pos 16))
      (pos 4)
      (commit_landing whole
        (some begun_first)
        (some (negsuc 89))
        (some (pos 112))
        (some (pos 16))
        (pos 4))
unfolding begin_client_shot new_initial_state outside
first_Lands =
    begin-commit-Lands whole first begun_first (some (negsuc 89)) (some (negsuc 89))
      (some (pos 112)) (some (pos 16)) (pos 7) (pos 4) first-IsValid refl refl

begin-commit-Lands_example :
    Lands whole
      (reported whole begun_first (some (negsuc 89)) (some (pos 112)) (some (pos 16)))
      (pos 1)
      (some (pos 112))
      (some (pos 16))
      (pos 4)
      (commit_landing whole
        (some begun_first)
        (some (negsuc 89))
        (some (pos 112))
        (some (pos 16))
        (pos 4))
unfolding begin_client_shot new_initial_state outside
begin-commit-Lands_example =
    begin-commit-Lands whole first begun_first (some (negsuc 89)) (some (negsuc 89))
      (some (pos 112)) (some (pos 16)) (pos 7) (pos 4) first-IsValid refl refl

landing-IsFree_example : IsFree board (pos 0, pos 3)
unfolding landing initial_rows at
landing-IsFree_example =
    landing-IsFree whole board (some (pos 112)) (some (pos 16)) (pos 0, pos 3) refl

settle-Settles_example :
    Settles first (pos 0, pos 3) (pos 1) (pos 4) (settle whole first (pos 0, pos 3) (pos 1) (pos 4))
unfolding new_initial_state initial_rows at in_board
settle-Settles_example =
    settle-Settles whole first (pos 0, pos 3) (pos 1) (pos 4) (initial_rows-IsBoard three) refl refl
      refl (omega arith)

finite : (q : Pos) → below (distance whole (some (pos 16)) (some (pos 20)) q) none ≡ true
unfolding distance
finite (pos r, c) = ground arith
finite (negsuc r, c) = ground arith

find_nearest_empty_lem_example :
    ((find_nearest_empty whole board (pos 0, pos 0) (some (pos 16)) (some (pos 20)) ≡ none)
      × ((q : Pos) → q ∈ around (pos 0, pos 0) → ¬ IsFree board q))
    ⊎ ((p : Pos) × (find_nearest_empty whole board (pos 0, pos 0) (some (pos 16)) (some (pos 20))
          ≡ some p)
        × (p ∈ around (pos 0, pos 0))
        × IsFree board p
        × ((q : Pos)
            → q ∈ around (pos 0, pos 0)
            → IsFree board q
            → below
                (distance whole (some (pos 16)) (some (pos 20)) q)
                (distance whole (some (pos 16)) (some (pos 20)) p)
              ≡ false))
find_nearest_empty_lem_example =
    find_nearest_empty_lem whole whole-IsOrder board (some (pos 16)) (some (pos 20)) (pos 0, pos 0)
      finite

Lands-ok :
    (st : PlayerState (Option ℤ)) (color : ℤ) (x y : Option ℤ) (drawn : ℤ)
    (r : Result (PlayerState (Option ℤ)))
    → Lands whole st color x y drawn r
    → (out : PlayerState (Option ℤ)) × (r ≡ ok out)
Lands-ok st color x y drawn r (inl (nowhere, out, e, b, s, p)) = (out, e)
Lands-ok st color x y drawn r (inr (p, there, s, e)) = (s.out, e)

-- The state after the landing.
abbrev lands_first :
    (out : PlayerState (Option ℤ)) × (commit_landing whole
        (some begun_first)
        (some (negsuc 89))
        (some (pos 112))
        (some (pos 16))
        (pos 4)
      ≡ ok out)
lands_first = Lands-ok _ _ _ _ _ _ first_Lands

commit_landing-once_example :
    (commit_landing whole
        (some lands_first.0)
        (some (negsuc 89))
        (some (pos 144))
        (some (pos 16))
        (pos 4)
      ≡ err game_already_finished)
    ⊎ (commit_landing whole
          (some lands_first.0)
          (some (negsuc 89))
          (some (pos 144))
          (some (pos 16))
          (pos 4)
        ≡ err no_pending_shot)
commit_landing-once_example =
    commit_landing-once whole begun_first lands_first.0 (some (negsuc 89)) (some (pos 112))
      (some (pos 16)) (some (negsuc 89)) (some (pos 144)) (some (pos 16)) (pos 4) (pos 4)
      lands_first.1

-- A layer over `three`.
add_top_layer-conserves_example :
    let out = add_top_layer whole first (replicate 17 (pos 3)) in
    (all_bubbles out.board ≡ bubbles (replicate 17 (pos 3)) + all_bubbles (take 13 first.board))
    × AllWide out.board
    × (length out.board ≡ gb_rows)
unfolding new_initial_state initial_rows
add_top_layer-conserves_example =
    add_top_layer-conserves whole first (replicate 17 (pos 3))
      (
        refl,
        (
          refl,
          (
            refl,
            (
              refl,
              (refl, (refl, (refl, (refl, (refl, (refl, (refl, (refl, (refl, (refl, tt)))))))))),
            ),
          ),
        ),
      )
      refl refl

four_bubbles : all_bubbles (add_top_layer whole first (replicate 17 (pos 3))).board ≡ 21
unfolding new_initial_state initial_rows add_top_layer all_bubbles press_rows press_row nearest_col
    drop_in cell_center check_state
four_bubbles = refl
