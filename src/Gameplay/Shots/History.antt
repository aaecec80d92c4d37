-- ===== src/Gameplay/Shots/History.antt =====
-- Any sequence of calls on a player's state, from the first state on.
use puzzle_bubble.Prelude.{
  ℕ, zero, suc, ◌+◌, ◌≡◌, refl, arith, ℤ, pos, negsuc, ◌&&◌, ltb, Bool-cases, inl, inr,
  if◌then◌else◌, Option, none, some, List, [], ◌∷◌, get_or,
}
use puzzle_bubble.Gameplay.Grid.{Pos, gb_rows, gb_cols, empty_cell, at}
use puzzle_bubble.Gameplay.Float.{Float}
use puzzle_bubble.Gameplay.State.{PlayerState, Draws, initial_row, initial_rows, new_initial_state}
use puzzle_bubble.Gameplay.State.Outcome.{initial_rows-IsBoard}
use puzzle_bubble.Gameplay.Shots.{Result, ok, err, tick, fire, begin_client_shot, commit_landing}
use puzzle_bubble.Gameplay.Shots.Invariant.{
  IsColor, IsCell, IsValid, Keeps, Returns, tick-Keeps, fire-Returns, begin_client_shot-Returns,
  commit_landing-Returns,
}

-- A call, with the colour that the random generator returns to it.
pub data Call (F : Type 0) : Type 0 where
  ticks : ℤ → ℤ → Call F
  fires : F → Call F
  begins : F → ℤ → Call F
  lands : F → F → F → ℤ → Call F

abbrev after : {A : Type 0} → A → Result A → A
after st (ok st') = st'
after st (err e) = st

abbrev or_same : {A : Type 0} → A → Option A → A
or_same st (some st') = st'
or_same st none = st

module _ (fl : Float) where
  -- The state after a call; an error leaves it as it was.
  unfoldable pub step : PlayerState fl.F → Call fl.F → PlayerState fl.F
  step st (ticks now drawn) = or_same st (tick fl st now drawn)
  step st (fires angle) = after st (fire fl (some st) angle)
  step st (begins angle now) = after st (begin_client_shot fl (some st) angle now)
  step st (lands angle x y drawn) = after st (commit_landing fl (some st) angle x y drawn)

  pub replay : PlayerState fl.F → List (Call fl.F) → PlayerState fl.F
  unfolding step
  replay st [] = st
  replay st (c ∷ cs) = replay (step st c) cs

  -- The generator returned a colour to the call.
  abbrev pub IsDrawn : Call fl.F → Type 0
  IsDrawn (ticks now drawn) = IsColor drawn
  IsDrawn (fires angle) = Unit
  IsDrawn (begins angle now) = Unit
  IsDrawn (lands angle x y drawn) = IsColor drawn

  abbrev pub AllDrawn : List (Call fl.F) → Type 0
  AllDrawn [] = Unit
  AllDrawn (c ∷ cs) = IsDrawn c × AllDrawn cs

  after-IsValid :
      (st : PlayerState fl.F) (r : Result (PlayerState fl.F))
      → IsValid st
      → Returns fl r
      → IsValid (after st r)
  after-IsValid st (ok out) v w = w
  after-IsValid st (err e) v w = v

  or_same-IsValid :
      (st : PlayerState fl.F) (r : Option (PlayerState fl.F)) → Keeps r → IsValid (or_same st r)
  or_same-IsValid st none (out, e, v) = absurd (cc)
  or_same-IsValid st (some a) (out, e, v) = rw (same a out e) v
    where
      same : (a b : PlayerState fl.F) → some a ≡ some b → a ≡ b
      same a b h = cc

  pub step-IsValid :
      (st : PlayerState fl.F) (c : Call fl.F) → IsDrawn c → IsValid st → IsValid (step st c)
  unfolding step
  step-IsValid st (ticks now drawn) d v =
      or_same-IsValid st (tick fl st now drawn) (tick-Keeps fl st now drawn v d)
  step-IsValid st (fires angle) d v =
      after-IsValid st (fire fl (some st) angle) v (fire-Returns fl st angle v)
  step-IsValid st (begins angle now) d v =
      after-IsValid st (begin_client_shot fl (some st) angle now) v
        (begin_client_shot-Returns fl st angle now v)
  step-IsValid st (lands angle x y drawn) d v =
      after-IsValid st (commit_landing fl (some st) angle x y drawn) v
        (commit_landing-Returns fl st angle x y drawn v d)

  replay-IsValid :
      (st : PlayerState fl.F) (cs : List (Call fl.F))
      → AllDrawn cs
      → IsValid st
      → IsValid (replay st cs)
  unfolding replay
  replay-IsValid st [] d v = v
  replay-IsValid st (c ∷ cs) d v = replay-IsValid (step st c) cs d.1 (step-IsValid st c d.0 v)

-- The colours that `NewInitialState` draws.
pub record AreColors (d : Draws) : Type 0 where
  pub current : IsColor d.current
  pub next : IsColor d.next
  pub cell : (r c : ℕ) → IsColor (d.color r c)

IsCell-draw :
    (d : Draws)
    → AreColors d
    → (r c : ℕ) → IsCell (if ltb r 5 && d.fills r c then d.color r c else empty_cell)
IsCell-draw d h r c = elim (Bool-cases (ltb r 5 && d.fills r c)) [
  | inl full ↦ rw full (color_cell (d.color r c) (h.cell r c))
  | inr hole ↦ rw hole refl
]
  where
    color_cell : (k : ℤ) → IsColor k → IsCell k
    color_cell (pos n) p = p
    color_cell (negsuc n) p = absurd p

initial_row-cells :
    (d : Draws) → AreColors d → (r n c i : ℕ) → IsCell (get_or (initial_row d r n c) i empty_cell)
unfolding initial_row
initial_row-cells d h r zero c i = refl
initial_row-cells d h r (suc n) c zero = IsCell-draw d h r c
initial_row-cells d h r (suc n) c (suc i) = initial_row-cells d h r n (c + 1) i

initial_rows-cells :
    (d : Draws)
    → AreColors d
    → (n r i k : ℕ) → IsCell (get_or (get_or (initial_rows d n r) i []) k empty_cell)
unfolding initial_rows
initial_rows-cells d h zero r i k = refl
initial_rows-cells d h (suc n) r zero k = initial_row-cells d h r gb_cols 0 k
initial_rows-cells d h (suc n) r (suc i) k = initial_rows-cells d h n (r + 1) i k

initial-cells : (d : Draws) → AreColors d → (q : Pos) → IsCell (at (initial_rows d gb_rows 0) q)
unfolding at
initial-cells d h (pos r, pos c) = initial_rows-cells d h gb_rows 0 r c
initial-cells d h (pos r, negsuc c) = refl
initial-cells d h (negsuc r, c) = refl

pub new_initial_state-IsValid :
    (fl : Float) (d : Draws) (now : ℤ) → AreColors d → IsValid (new_initial_state fl d now)
unfolding new_initial_state
new_initial_state-IsValid fl d now h = record {
  shape = initial_rows-IsBoard d;
  coloured = λ q in_q. initial-cells d h q;
  current = h.current;
  next = h.next;
  shot = omega arith;
  flying = tt;
  score = omega arith;
  seq = omega arith;
}

-- After any sequence of ticks, launches, shots and landings from the first state, if the random
-- generator returns colours, the state is valid: the board has 14 rows of 17 cells, each of them
-- -1 or a colour from 0 to 5, the colours of the launcher, of the last shot and of a bubble in
-- flight are colours, and score and shot number are 64-bit values.
pub replay-initial-IsValid :
    (fl : Float) (d : Draws) (now : ℤ) (cs : List (Call fl.F))
    → AreColors d
    → AllDrawn fl cs
    → IsValid (replay fl (new_initial_state fl d now) cs)
replay-initial-IsValid fl d now cs h drawn =
    replay-IsValid fl (new_initial_state fl d now) cs drawn (new_initial_state-IsValid fl d now h)
