-- ===== src/Gameplay/Shots/Landing.antt =====
-- A shot from its beginning to its landing.
use puzzle_bubble.Prelude.{
  ◌≡◌, refl, ◌⊎◌, inl, inr, arith, ℤ, Bool, true, false, Option-cases, Option, none, some,
}
use puzzle_bubble.Gameplay.Grid.{Pos, put}
use puzzle_bubble.Gameplay.Float.{Float}
use puzzle_bubble.Gameplay.State.{PlayerState, MovingBubble, check_state}
use puzzle_bubble.Gameplay.Matches.{clear_matches}
use puzzle_bubble.Gameplay.Floating.{drop_floating}
use puzzle_bubble.Gameplay.Place.{landing, settle, place_and_resolve}
use puzzle_bubble.Gameplay.Place.Cases.{place_cases}
use puzzle_bubble.Gameplay.Place.Nearest.{landing-IsFree}
use puzzle_bubble.Gameplay.Place.Free.{IsCrowded, IsLanding, landing_cases}
use puzzle_bubble.Gameplay.Place.Settle.{Settles, settle-Settles}
use puzzle_bubble.Gameplay.Shots.{
  Result, ok, err, or_stuck, game_already_finished, no_pending_shot, is_playing, in_flight, outside,
  begun, reported, land_reported, begin_client_shot, commit_landing,
}
use puzzle_bubble.Gameplay.Shots.Cases.{commit_cases}
use puzzle_bubble.Gameplay.Shots.Invariant.{IsValid, color_not_neg, begun-IsValid}

module _ (fl : Float) where
  -- The shot of a result is no longer pending.
  abbrev IsSpent : Result (PlayerState fl.F) → Type 0
  IsSpent (ok st) = st.pending_shot ≡ false
  IsSpent (err e) = Unit

  abbrev Leaves : Bool → Option (PlayerState fl.F) → Type 0
  Leaves p none = Unit
  Leaves p (some st) = st.pending_shot ≡ p

  settle-Leaves :
      (st : PlayerState fl.F) (p : Pos) (color drawn : ℤ)
      → Leaves st.pending_shot (settle fl st p color drawn)
  unfolding settle check_state
  settle-Leaves st p color drawn = elim (Option-cases (clear_matches (put st.board p color) p)) [
    | inl e ↦ rw e tt
    | inr ((cleared, removed), e) ↦ elim (Option-cases (drop_floating cleared)) [
      | inl e' ↦ rw (e, e') tt
      | inr ((kept, dropped), e') ↦ rw (e, e') refl
    ]
  ]

  Leaves-IsSpent : (r : Option (PlayerState fl.F)) → Leaves false r → IsSpent (or_stuck r)
  Leaves-IsSpent none h = tt
  Leaves-IsSpent (some st) h = h

  land_reported-IsSpent :
      (st : PlayerState fl.F) (angle x y : fl.F) (drawn : ℤ)
      → IsSpent (land_reported fl st angle x y drawn)
  unfolding land_reported reported
  land_reported-IsSpent st angle x y drawn =
      Leaves-IsSpent (place_and_resolve fl (reported fl st angle x y) drawn) (
        place_cases fl (Leaves false) (reported fl st angle x y) drawn (λ e. refl)
          (λ m e nowhere. refl)
          (λ m p e there. settle-Leaves (reported fl st angle x y) p m.color drawn))

  spent :
      (st : PlayerState fl.F) (angle x y : fl.F) (drawn : ℤ)
      → st.pending_shot ≡ false
      → (commit_landing fl (some st) angle x y drawn ≡ err game_already_finished)
        ⊎ (commit_landing fl (some st) angle x y drawn ≡ err no_pending_shot)
  unfolding commit_landing
  spent st angle x y drawn e = ground arith

  -- A shot lands at most once: after a landing that was accepted the next report of a landing,
  -- wherever it is, is refused, because no shot is pending or because the game is over.
  pub commit_landing-once :
      (st st' : PlayerState fl.F) (angle x y angle' x' y' : fl.F) (drawn drawn' : ℤ)
      → commit_landing fl (some st) angle x y drawn ≡ ok st'
      → (commit_landing fl (some st') angle' x' y' drawn' ≡ err game_already_finished)
        ⊎ (commit_landing fl (some st') angle' x' y' drawn' ≡ err no_pending_shot)
  commit_landing-once st st' angle x y angle' x' y' drawn drawn' h = spent st' angle' x' y' drawn' (
      rw h at (
        commit_cases fl st IsSpent angle x y drawn (λ _. tt) (λ _ _. tt) (λ _ _ _. tt)
          (λ _ _ _. land_reported-IsSpent st angle x y drawn)))

  begin-eq-ok :
      (st st' : PlayerState fl.F) (angle : fl.F) (now : ℤ)
      → begin_client_shot fl (some st) angle now ≡ ok st'
      → (st' ≡ begun fl st angle now) × (is_playing st.status ≡ true) × (in_flight fl st ≡ false)
  unfolding begin_client_shot
  begin-eq-ok st st' angle now h = ground arith

  -- What a landing is to do: the bubble finds no cell and is lost, or it settles.
  abbrev pub Lands :
      (st : PlayerState fl.F) (color : ℤ) (x y : fl.F) (drawn : ℤ)
      → Result (PlayerState fl.F)
      → Type 0
  Lands st color x y drawn r =
      (IsCrowded fl st.board x y
        × (out : PlayerState fl.F) × (r ≡ ok out)
        × (out.board ≡ st.board)
        × (out.score ≡ st.score)
        × (out.pending_shot ≡ false))
      ⊎ ((p : Pos) × IsLanding fl st.board x y p
          × (s : Settles st p color drawn (settle fl st p color drawn)) × (r ≡ ok s.out))

  some_inj : (a b : MovingBubble fl.F) → some a ≡ some b → a ≡ b
  some_inj a b h = cc

  or_stuck-some :
      (r : Option (PlayerState fl.F)) (out : PlayerState fl.F) → r ≡ some out → or_stuck r ≡ ok out
  or_stuck-some r out e = rw e

  crowded_of_none :
      (st : PlayerState fl.F) (x y : fl.F)
      → landing fl st.board x y ≡ none
      → IsCrowded fl st.board x y
  crowded_of_none st x y e = elim (landing_cases fl st.board x y) [
    | inl (_, crowded) ↦ crowded
    | inr (p, e', rests) ↦ absurd (cc)
  ]

  landing_of_some :
      (st : PlayerState fl.F) (x y : fl.F) (p : Pos)
      → landing fl st.board x y ≡ some p
      → IsLanding fl st.board x y p
  landing_of_some st x y p e = elim (landing_cases fl st.board x y) [
    | inl (e', crowded) ↦ absurd (cc)
    | inr (q, e', rests) ↦ let same : q ≡ p = cc in rw (← same) rests
  ]

  settled-Lands :
      (st : PlayerState fl.F) (p : Pos) (color : ℤ) (x y : fl.F) (drawn : ℤ)
      → IsLanding fl st.board x y p
      → Settles st p color drawn (settle fl st p color drawn)
      → Lands st color x y drawn (or_stuck (settle fl st p color drawn))
  settled-Lands st p color x y drawn there s =
      inr (p, there, s, or_stuck-some (settle fl st p color drawn) s.out s.returns)

  land_reported_lem :
      (st : PlayerState fl.F) (angle x y : fl.F) (drawn : ℤ)
      → land_reported fl st angle x y drawn
        ≡ or_stuck (place_and_resolve fl (reported fl st angle x y) drawn)
  unfolding land_reported
  land_reported_lem st angle x y drawn = refl

  reported-Lands :
      (st : PlayerState fl.F) (angle x y : fl.F) (drawn : ℤ)
      → IsValid st
      → Lands
          (reported fl st angle x y)
          st.shot_color
          x
          y
          drawn
          (land_reported fl st angle x y drawn)
  unfolding reported
  reported-Lands st angle x y drawn v =
      let st' = reported fl st angle x y in
      rw (land_reported_lem st angle x y drawn) (
        place_cases fl (λ r. Lands st' st.shot_color x y drawn (or_stuck r)) st' drawn
          (λ e. absurd (cc))
          (λ m e nowhere.
            let same = some_inj _ m e in
            inl (
              crowded_of_none st' x y (rw (← same) at nowhere),
              record st' { moving = none },
              refl,
              refl,
              refl,
              refl,
            ))
          (λ m p e there.
            let same = some_inj _ m e in
            let there' : landing fl st'.board x y ≡ some p = rw (← same) at there in
            let free = landing-IsFree fl st'.board x y p there' in
            let rests = landing_of_some st' x y p there' in
            rw (← same) (
              settled-Lands st' p st.shot_color x y drawn rests (
                settle-Settles fl st' p st.shot_color drawn v.shape free.0 free.1
                  (color_not_neg st.shot_color v.shot) v.score))))

  commit_begun :
      (st : PlayerState fl.F) (angle angle' x y : fl.F) (now drawn : ℤ)
      → is_playing st.status ≡ true
      → in_flight fl st ≡ false
      → outside fl x y ≡ false
      → commit_landing fl (some (begun fl st angle now)) angle' x y drawn
        ≡ land_reported fl (begun fl st angle now) angle' x y drawn
  unfolding commit_landing begun
  commit_begun st angle angle' x y now drawn going idle inside = rw (going, idle, inside)

  -- From a valid state, after a shot was begun: a report of a landing within the field is
  -- accepted. The bubble has the colour that was loaded when the shot began. Either the cell that
  -- the report is nearest to is taken and no free one around it is at a distance below the largest
  -- number: then it is lost, and board and score stay as they were. Or it settles in a free cell,
  -- which is the nearest one or, that being taken, one around it: the cells that chains of its
  -- colour join to it are emptied if they are three or more, then exactly the bubbles that no
  -- chain joins to the top row, and no other cell changes; 10 points are added for each cell of the
  -- group and 15 for each bubble that floated (modulo 2^64), the next colour is loaded, and the
  -- status is the board's.
  pub begin-commit-Lands :
      (st st₁ : PlayerState fl.F) (angle angle' x y : fl.F) (now drawn : ℤ)
      → IsValid st
      → begin_client_shot fl (some st) angle now ≡ ok st₁
      → outside fl x y ≡ false
      → Lands
          (reported fl st₁ angle' x y)
          st.current_color
          x
          y
          drawn
          (commit_landing fl (some st₁) angle' x y drawn)
  unfolding begun
  begin-commit-Lands st st₁ angle angle' x y now drawn v h inside =
      let (e, going, idle) = begin-eq-ok st st₁ angle now h in
      rw e (
        rw (commit_begun st angle angle' x y now drawn going idle inside) (
          reported-Lands (begun fl st angle now) angle' x y drawn
            (begun-IsValid fl st angle now v)))
