-- ===== src/Gameplay/State.antt =====
-- internal/gameplay/engine.go: the state of one player, `NewInitialState` and `checkState`.
pub mod Outcome
use package.puzzle_bubble.Prelude.{
  ℕ, zero, suc, ◌+◌, ℤ, pos, Bool, true, false, ◌&&◌, ◌==◌, ltb, if◌then◌else◌, Option, none, some,
  List, [], ◌∷◌,
}
use puzzle_bubble.Gameplay.Grid.{
  Pos, Board, gb_rows, gb_cols, empty_cell, occupied, cells, count_occupied,
}
use puzzle_bubble.Gameplay.Float.{Float}

pub data Status : Type 0 where
  playing win lose : Status

-- `st.Status == "lose"`.
abbrev pub has_lost : Status → Bool
has_lost lose = true
has_lost win = false
has_lost playing = false

pub record MovingBubble (F : Type 0) : Type 0 where
  pub x : F
  pub y : F
  pub vx : F
  pub vy : F
  pub color : ℤ

-- `score` and `shot_seq` are the 64-bit patterns of the source's integers.
pub record PlayerState (F : Type 0) : Type 0 where
  pub board : Board
  pub current_color : ℤ
  pub next_color : ℤ
  pub aim_angle : F
  pub moving : Option (MovingBubble F)
  pub pending_shot : Bool
  pub shot_seq : ℕ
  pub shot_angle : F
  pub shot_color : ℤ
  pub shot_at_ms : ℤ
  pub score : ℕ
  pub status : Status
  pub last_tick_ms : ℤ

-- What the random generator returns to `NewInitialState`: two colours, and for each cell of the
-- first five rows whether it is filled (`rand.Float64() < 0.78`) and its colour.
pub record Draws : Type 0 where
  pub current : ℤ
  pub next : ℤ
  pub fills : ℕ → ℕ → Bool
  pub color : ℕ → ℕ → ℤ

-- Row `r` from column `c` on, and the rows from `r` on.
unfoldable pub initial_row : Draws → ℕ → ℕ → ℕ → List ℤ
initial_row d r zero c = []
initial_row d r (suc n) c =
    (if ltb r 5 && d.fills r c then d.color r c else empty_cell) ∷ initial_row d r n (c + 1)

unfoldable pub initial_rows : Draws → ℕ → ℕ → Board
unfolding initial_row
initial_rows d zero r = []
initial_rows d (suc n) r = initial_row d r gb_cols 0 ∷ initial_rows d n (r + 1)

unfoldable pub new_initial_state : (fl : Float) → Draws → ℤ → PlayerState fl.F
unfolding initial_rows
new_initial_state fl d now = record {
  board = initial_rows d gb_rows 0;
  current_color = d.current;
  next_color = d.next;
  aim_angle = fl.straight_up;
  moving = none;
  pending_shot = false;
  shot_seq = 0;
  shot_angle = fl.straight_up;
  shot_color = pos 0;
  shot_at_ms = pos 0;
  score = 0;
  status = playing;
  last_tick_ms = now;
}

-- The last loop of `checkState`: is a cell of the bottom row occupied, `n` columns from `c` on?
pub bottom_occupied : Board → ℕ → ℕ → Bool
bottom_occupied b zero c = false
bottom_occupied b (suc n) c =
    let rest = bottom_occupied b n (c + 1) in if occupied b (pos 13, pos c) then true else rest

-- The status that `checkState` sets.
unfoldable pub board_status : Board → Status
unfolding bottom_occupied
board_status b =
    if count_occupied b cells == 0
    then win
    else if bottom_occupied b gb_cols 0
    then lose
    else playing

unfoldable pub check_state : {F : Type 0} → PlayerState F → PlayerState F
check_state st = record st { status = board_status st.board }
