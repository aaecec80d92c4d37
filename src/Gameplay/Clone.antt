-- ===== src/Gameplay/Clone.antt =====
-- internal/gameplay/engine.go: `CloneState`, the part of a player's state that goes to clients.
use puzzle_bubble.Prelude.{ℕ, ℤ, Bool, Option, none, some}
use puzzle_bubble.Gameplay.Grid.{Board}
use puzzle_bubble.Gameplay.State.{Status, MovingBubble, PlayerState}

pub record View (F : Type 0) : Type 0 where
  pub board : Board
  pub current_color : ℤ
  pub next_color : ℤ
  pub aim_angle : F
  pub moving : Option (MovingBubble F)
  pub pending_shot : Bool
  pub shot_seq : ℕ
  pub shot_angle : F
  pub shot_color : ℤ
  pub shot_at_ms : ℤ
  pub score : ℕ
  pub state : Status

-- `none` is the panic on the nil state.
abbrev pub clone_state : {F : Type 0} → Option (PlayerState F) → Option (View F)
clone_state none = none
clone_state (some st) = some (record {
  board = st.board;
  current_color = st.current_color;
  next_color = st.next_color;
  aim_angle = st.aim_angle;
  moving = st.moving;
  pending_shot = st.pending_shot;
  shot_seq = st.shot_seq;
  shot_angle = st.shot_angle;
  shot_color = st.shot_color;
  shot_at_ms = st.shot_at_ms;
  score = st.score;
  state = st.status;
})
