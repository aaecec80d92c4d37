-- ===== src/Gameplay/Shots/Invariant.antt =====
-- Every operation on a player's state keeps it valid, and none runs out of fuel.
use puzzle_bubble.Prelude.{
  ◌^◌, ◌<◌, ◌≡◌, ◌≢◌, refl, inl, inr, arith, ℤ, pos, negsuc, true, false, not, ◌||◌, Bool-cases,
  is_neg, Option, none, some,
}
use puzzle_bubble.Gameplay.Grid.{Pos, at, put, in_board, occupied, cells}
use puzzle_bubble.Gameplay.Grid.Laws.{IsBoard, eq_pos, at-put}
use puzzle_bubble.Gameplay.Float.{Float}
use puzzle_bubble.Gameplay.State.{PlayerState, MovingBubble}
use puzzle_bubble.Gameplay.Place.{radius, settle, place_and_resolve}
use puzzle_bubble.Gameplay.Place.Nearest.{landing-IsFree}
use puzzle_bubble.Gameplay.Place.Cases.{place_cases}
use puzzle_bubble.Gameplay.Place.Settle.{settle-Settles}
use puzzle_bubble.Gameplay.Shots.Cases.{tick_cases, commit_cases}
use puzzle_bubble.Gameplay.Shots.{
  stuck, Result, ok, err, or_stuck, bounce, collides, fly, tick, fire, begin_client_shot,
  land_reported, commit_landing, reported, launched, begun, is_playing, in_flight,
}

-- A colour is one of 0 to 5, a cell of the board a colour or -1.
abbrev pub IsColor : ℤ → Type 0
IsColor (pos n) = n < 6
IsColor (negsuc n) = ⊥

abbrev pub IsCell : ℤ → Type 0
IsCell (pos n) = n < 6
IsCell (negsuc n) = n ≡ 0

abbrev pub IsLoaded : {F : Type 0} → Option (MovingBubble F) → Type 0
IsLoaded none = Unit
IsLoaded (some m) = IsColor m.color

pub record IsValid {F : Type 0} (st : PlayerState F) : Type 0 where
  pub shape : IsBoard st.board
  pub coloured : (q : Pos) → in_board q ≡ true → IsCell (at st.board q)
  pub current : IsColor st.current_color
  pub next : IsColor st.next_color
  pub shot : IsColor st.shot_color
  pub flying : IsLoaded st.moving
  pub score : st.score < 2 ^ 64
  pub seq : st.shot_seq < 2 ^ 64

pub color_not_neg : (c : ℤ) → IsColor c → is_neg c ≡ false
color_not_neg (pos n) h = refl
color_not_neg (negsuc n) h = absurd h

IsColor-IsCell : (c : ℤ) → IsColor c → IsCell c
IsColor-IsCell (pos n) h = h
IsColor-IsCell (negsuc n) h = absurd h

-- The state `out` is valid and is what the step returned.
abbrev pub Keeps : {F : Type 0} → Option (PlayerState F) → Type 0
Keeps {F} r = (out : PlayerState F) × (r ≡ some out) × IsValid out

some_inj : {F : Type 0} (a b : PlayerState F) → some a ≡ some b → a ≡ b
some_inj a b h = cc

module _ (fl : Float) where
  settle-Keeps :
      (st : PlayerState fl.F) (p : Pos) (color drawn : ℤ)
      → IsValid st
      → IsColor color
      → IsColor drawn
      → in_board p ≡ true
      → occupied st.board p ≡ false
      → Keeps (settle fl st p color drawn)
  settle-Keeps st p color drawn v hc hd inside free =
      let s =
        settle-Settles fl st p color drawn v.shape inside free (color_not_neg color hc) v.score in
      (
        s.out,
        s.returns,
        record {
          shape = s.shape;
          coloured = λ q in_q. elim (s.cells_out q in_q) [
            | inl gone ↦ rw gone refl
            | inr same ↦ rw same (placed q in_q)
          ];
          current = rw (s.loaded.0) v.next;
          next = rw (s.loaded.1) hd;
          shot = rw (s.kept.1) v.shot;
          flying = rw (s.idle) tt;
          score = rw (s.score) (omega arith);
          seq = rw (s.kept.0) v.seq;
        },
      )
    where
      placed : (q : Pos) → in_board q ≡ true → IsCell (at (put st.board p color) q)
      placed q in_q = elim (Bool-cases (eq_pos p q)) [
        | inl here ↦ rw (at-put st.board v.shape color p q inside, here) (IsColor-IsCell color hc)
        | inr else_where ↦
            rw (at-put st.board v.shape color p q inside, else_where) (v.coloured q in_q)
      ]

  pub place_and_resolve-Keeps :
      (st : PlayerState fl.F) (drawn : ℤ)
      → IsValid st
      → IsColor drawn
      → Keeps (place_and_resolve fl st drawn)
  place_and_resolve-Keeps st drawn v hd =
      place_cases fl Keeps st drawn (λ e. (st, refl, v))
        (λ m e nowhere. (
          record st { moving = none },
          refl,
          record {
            shape = v.shape;
            coloured = v.coloured;
            current = v.current;
            next = v.next;
            shot = v.shot;
            flying = tt;
            score = v.score;
            seq = v.seq;
          },
        ))
        (λ m p e there.
          let free = landing-IsFree fl st.board m.x m.y p there in
          settle-Keeps st p m.color drawn v (rw e at v.flying) hd free.0 free.1)

  bounce-color : (m : MovingBubble fl.F) → (bounce fl m).color ≡ m.color
  unfolding bounce
  bounce-color m = ground arith

  fly-Keeps :
      (st : PlayerState fl.F) (m : MovingBubble fl.F) (dt : fl.F) (drawn : ℤ)
      → IsValid st
      → IsColor m.color
      → IsColor drawn
      → Keeps (fly fl st m dt drawn)
  unfolding fly
  fly-Keeps st m dt drawn v hc hd =
      let m' =
        bounce fl (record m { x = fl.add m.x (fl.mul m.vx dt); y = fl.add m.y (fl.mul m.vy dt) }) in
      let v' : IsValid (record st { moving = some m' }) = record {
        shape = v.shape;
        coloured = v.coloured;
        current = v.current;
        next = v.next;
        shot = v.shot;
        flying = rw bounce-color hc;
        score = v.score;
        seq = v.seq;
      } in
      elim (Bool-cases (fl.le m'.y (radius fl) || collides fl st.board m'.x m'.y cells)) [
        | inl hit ↦ rw hit (place_and_resolve-Keeps (record st { moving = some m' }) drawn v' hd)
        | inr miss ↦ rw miss (record st { moving = some m' }, refl, v')
      ]

  timed :
      (st : PlayerState fl.F) (now : ℤ) → IsValid st → IsValid (record st { last_tick_ms = now })
  timed st now v = record {
    shape = v.shape;
    coloured = v.coloured;
    current = v.current;
    next = v.next;
    shot = v.shot;
    flying = v.flying;
    score = v.score;
    seq = v.seq;
  }

  -- On a valid state, if the colour that the generator returns is one, a tick returns, and the
  -- state that it returns is valid.
  pub tick-Keeps :
      (st : PlayerState fl.F) (now drawn : ℤ)
      → IsValid st
      → IsColor drawn
      → Keeps (tick fl st now drawn)
  tick-Keeps st now drawn v hd =
      tick_cases fl st Keeps now drawn (record st { last_tick_ms = now }, refl, timed st now v)
        (λ m going e.
          fly-Keeps (record st { last_tick_ms = now }) m _ drawn (timed st now v) (rw e at v.flying)
            hd)

  -- A valid state, or an error that is one of the source's.
  abbrev pub Returns : Result (PlayerState fl.F) → Type 0
  Returns (ok out) = IsValid out
  Returns (err e) = e ≢ stuck

  Keeps-Returns : (r : Option (PlayerState fl.F)) → Keeps r → Returns (or_stuck r)
  Keeps-Returns none (out, e, v) = absurd (cc)
  Keeps-Returns (some a) (out, e, v) = rw (some_inj a out e) v

  reported-IsValid :
      (st : PlayerState fl.F) (angle x y : fl.F) → IsValid st → IsValid (reported fl st angle x y)
  unfolding reported
  reported-IsValid st angle x y v = record {
    shape = v.shape;
    coloured = v.coloured;
    current = v.current;
    next = v.next;
    shot = v.shot;
    flying = v.shot;
    score = v.score;
    seq = v.seq;
  }

  pub land_reported-Returns :
      (st : PlayerState fl.F) (angle x y : fl.F) (drawn : ℤ)
      → IsValid st
      → IsColor drawn
      → Returns (land_reported fl st angle x y drawn)
  unfolding land_reported
  land_reported-Returns st angle x y drawn v hd =
      Keeps-Returns (place_and_resolve fl (reported fl st angle x y) drawn) (
        place_and_resolve-Keeps (reported fl st angle x y) drawn (reported-IsValid st angle x y v)
          hd)

  pub commit_landing-Returns :
      (st : PlayerState fl.F) (angle x y : fl.F) (drawn : ℤ)
      → IsValid st
      → IsColor drawn
      → Returns (commit_landing fl (some st) angle x y drawn)
  commit_landing-Returns st angle x y drawn v hd =
      commit_cases fl st Returns angle x y drawn (λ e. λ h. cc) (λ e e₁. λ h. cc)
        (λ e e₁ e₂. λ h. cc) (λ e e₁ e₂. land_reported-Returns st angle x y drawn v hd)

  launched-IsValid :
      (st : PlayerState fl.F) (angle : fl.F) → IsValid st → IsValid (launched fl st angle)
  unfolding launched
  launched-IsValid st angle v = record {
    shape = v.shape;
    coloured = v.coloured;
    current = v.current;
    next = v.next;
    shot = v.shot;
    flying = v.current;
    score = v.score;
    seq = v.seq;
  }

  pub fire-Returns :
      (st : PlayerState fl.F) (angle : fl.F) → IsValid st → Returns (fire fl (some st) angle)
  unfolding fire
  fire-Returns st angle v = elim (Bool-cases (not (is_playing st.status))) [
    | inl over ↦ rw over (λ h. cc)
    | inr going ↦ elim (Bool-cases (in_flight fl st)) [
      | inl busy ↦ rw (going, busy) (λ h. cc)
      | inr idle ↦ rw (going, idle) (launched-IsValid st angle v)
    ]
  ]

  pub begun-IsValid :
      (st : PlayerState fl.F) (angle : fl.F) (now : ℤ)
      → IsValid st
      → IsValid (begun fl st angle now)
  unfolding begun
  begun-IsValid st angle now v = record {
    shape = v.shape;
    coloured = v.coloured;
    current = v.current;
    next = v.next;
    shot = v.current;
    flying = v.flying;
    score = v.score;
    seq = omega arith;
  }

  pub begin_client_shot-Returns :
      (st : PlayerState fl.F) (angle : fl.F) (now : ℤ)
      → IsValid st
      → Returns (begin_client_shot fl (some st) angle now)
  unfolding begin_client_shot
  begin_client_shot-Returns st angle now v = elim (Bool-cases (not (is_playing st.status))) [
    | inl over ↦ rw over (λ h. cc)
    | inr going ↦ elim (Bool-cases (in_flight fl st || st.pending_shot)) [
      | inl busy ↦ rw (going, busy) (λ h. cc)
      | inr idle ↦ rw (going, idle) (begun-IsValid st angle now v)
    ]
  ]
