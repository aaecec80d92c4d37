-- ===== src/Gameplay/Shots.antt =====
-- internal/gameplay/engine.go: the operations on a player's state. A method that the source calls
-- on a nil state takes an optional one; the state after an error is the state before.
pub mod Aim
pub mod Cases
pub mod Invariant
pub mod Landing
pub mod History
mod Tests
use package.puzzle_bubble.Prelude.{
  ℕ, suc, ◌+◌, ◌%◌, ◌^◌, ℤ, pos, sub64, Bool, true, false, ◌&&◌, ◌||◌, not, if◌then◌else◌, Option,
  none, some, List, [], ◌∷◌,
}
use mathlib.Core.Option
use puzzle_bubble.Gameplay.Grid.{Pos, Board, occupied, cells}
use puzzle_bubble.Gameplay.Float.{Float}
use puzzle_bubble.Gameplay.State.{Status, playing, win, lose, PlayerState, MovingBubble}
use puzzle_bubble.Gameplay.Place.{radius, cell_center, place_and_resolve}

-- `stuck` is a search of the model out of fuel; the others are the errors of the source.
pub data Error : Type 0 where
  state_not_found game_already_finished bubble_in_flight : Error
  no_pending_shot invalid_landing_position stuck : Error

pub data Result (A : Type 0) : Type 0 where
  ok : A → Result A
  err : Error → Result A

abbrev pub is_playing : Status → Bool
is_playing playing = true
is_playing win = false
is_playing lose = false

abbrev pub or_stuck : {A : Type 0} → Option A → Result A
or_stuck (some a) = ok a
or_stuck none = err stuck

module _ (fl : Float) where
  open fl use {
    F, of_int, add, sub, mul, div, lt, le, neg, abs, cos, sin, min_angle, max_angle, max_dt,
  }

  abbrev State : Type 0
  State = PlayerState F

  pub clamp_aim : F → F
  clamp_aim angle =
      if lt angle min_angle then min_angle else if lt max_angle angle then max_angle else angle

  -- `float64(nowMS-st.LastTickMS) / 1000.0`, kept between 0 and gbMaxDt.
  pub elapsed : ℤ → ℤ → F
  elapsed now last =
      let dt = div (of_int (sub64 now last)) (of_int (pos 1000)) in
      let dt₁ = if lt dt (of_int (pos 0)) then of_int (pos 0) else dt in
      if lt max_dt dt₁ then max_dt else dt₁

  -- `gbBoardW - gbRadius` is 544.
  pub bounce : MovingBubble F → MovingBubble F
  bounce m =
      if le m.x (radius fl)
      then record m { x = radius fl; vx = abs m.vx }
      else if le (of_int (pos 544)) m.x
      then record m { x = of_int (pos 544); vx = neg (abs m.vx) }
      else m

  -- `collideBoard`, over the positions still to come; `(gbDiam-2)*(gbDiam-2)` is 900.
  pub collides : Board → F → F → List Pos → Bool
  collides b x y [] = false
  collides b x y (p ∷ ps) =
      let (cx, cy) = cell_center fl p in
      let dx = sub x cx in
      let dy = sub y cy in
      let rest = collides b x y ps in
      if occupied b p && le (add (mul dx dx) (mul dy dy)) (of_int (pos 900)) then true else rest

  -- What `TickState` does with a bubble in flight.
  pub fly : State → MovingBubble F → F → ℤ → Option State
  unfolding bounce collides place_and_resolve
  fly st m dt drawn =
      let m' = bounce (record m { x = add m.x (mul m.vx dt); y = add m.y (mul m.vy dt) }) in
      let st' = record st { moving = some m' } in
      if le m'.y (radius fl) || collides st.board m'.x m'.y cells
      then place_and_resolve fl st' drawn
      else some st'

  pub tick : State → ℤ → ℤ → Option State
  unfolding elapsed fly
  tick st now drawn =
      let st' = record st { last_tick_ms = now } in
      let dt = elapsed now st.last_tick_ms in
      if is_playing st.status
      then elim st.moving [ none ↦ some st' | some m ↦ fly st' m dt drawn ]
      else some st'

  -- The outer option is a search out of fuel, the inner one is the nil state.
  unfoldable pub tick_state : Option State → ℤ → ℤ → Option (Option State)
  unfolding tick
  tick_state none now drawn = some none
  tick_state (some st) now drawn = Option.map some (tick st now drawn)

  abbrev pub in_flight : State → Bool
  in_flight st = elim st.moving [ none ↦ false | some m ↦ true ]

  -- The state with the bubble that `Fire` launches.
  pub launched : State → F → State
  unfolding clamp_aim
  launched st angle =
      let angle' = clamp_aim angle in
      record st {
        aim_angle = angle';
        moving = some (record {
          x = of_int (pos 280);
          y = of_int (pos 688);
          vx = mul (cos angle') (of_int (pos 520));
          vy = mul (sin angle') (of_int (pos 520));
          color = st.current_color;
        });
      }

  unfoldable pub fire : Option State → F → Result State
  unfolding launched
  fire none angle = err state_not_found
  fire (some st) angle =
      if not (is_playing st.status)
      then err game_already_finished
      else if in_flight st
      then err bubble_in_flight
      else ok (launched st angle)

  -- The state with the shot that `BeginClientShot` records.
  pub begun : State → F → ℤ → State
  unfolding clamp_aim
  begun st angle now = record st {
    aim_angle = clamp_aim angle;
    pending_shot = true;
    shot_seq = (st.shot_seq + 1) % 2 ^ 64;
    shot_angle = clamp_aim angle;
    shot_color = st.current_color;
    shot_at_ms = now;
  }

  unfoldable pub begin_client_shot : Option State → F → ℤ → Result State
  unfolding begun
  begin_client_shot none angle now = err state_not_found
  begin_client_shot (some st) angle now =
      if not (is_playing st.status)
      then err game_already_finished
      else if in_flight st || st.pending_shot
      then err bubble_in_flight
      else ok (begun st angle now)

  -- `x < 0 || x > gbBoardW || y < 0 || y > gbShooterY+gbRadius`.
  pub outside : F → F → Bool
  outside x y =
      lt x (of_int (pos 0))
      || lt (of_int (pos 560)) x
      || lt y (of_int (pos 0))
      || lt (of_int (pos 704)) y

  -- The state in which the bubble stands where the client reports it.
  pub reported : State → F → F → F → State
  unfolding clamp_aim
  reported st angle x y = record st {
    aim_angle = clamp_aim angle;
    pending_shot = false;
    moving =
        some (record {
          x = x;
          y = y;
          vx = of_int (pos 0);
          vy = of_int (pos 0);
          color = st.shot_color;
        });
  }

  pub land_reported : State → F → F → F → ℤ → Result State
  unfolding reported place_and_resolve
  land_reported st angle x y drawn = or_stuck (place_and_resolve fl (reported st angle x y) drawn)

  unfoldable pub commit_landing : Option State → F → F → F → ℤ → Result State
  unfolding outside land_reported
  commit_landing none angle x y drawn = err state_not_found
  commit_landing (some st) angle x y drawn =
      if not (is_playing st.status)
      then err game_already_finished
      else if not st.pending_shot || in_flight st
      then err no_pending_shot
      else if outside x y
      then err invalid_landing_position
      else land_reported st angle x y drawn
