-- ===== src/GameService/Alive.antt =====
-- The players of a session who have not lost, through the timeouts.
use puzzle_bubble.Prelude.{
  ◌≡◌, ◌∈◌, refl, sym, inl, inr, arith, ℤ, Bool, true, false, Bool-cases, Option, none, some, List,
  [], ◌∷◌, String, str_eq, eq_iff, lookup, has, has-insert, IsMap, has_of_lookup,
}
use puzzle_bubble.Gameplay.State.{lose, has_lost, PlayerState}
use puzzle_bubble.GameService.{expire, lose_player, alive}
use puzzle_bubble.GameService.Lose.{lose_player-cases, expire-keeps}
use puzzle_bubble.GameService.Timeout.{late, lost_or, lookup-expire, expire-IsMap}

module _ {F : Type 0} where
  -- A state that is not lost.
  abbrev pub Lives : Option (PlayerState F) → Type 0
  Lives none = ⊥
  Lives (some st) = has_lost st.status ≡ false

  has-alive :
      (p : String) (states : List (String × PlayerState F)) → p ∈ alive states → has p states ≡ true
  unfolding alive has
  has-alive p [] h = absurd h
  has-alive p ((j, st) ∷ states) h = elim (Bool-cases (has_lost st.status)) [
    | inl lost ↦ ground (arith, has-alive p states (rw (alive, lost) at h))
    | inr plays ↦ elim (rw (alive, plays) at h) as (λ _. has p ((j, st) ∷ states) ≡ true) [
      | inl same ↦ ground (arith, eq_iff j p, same)
      | inr later ↦ ground (arith, has-alive p states later)
    ]
  ]

  alive-Lives :
      (p : String) (states : List (String × PlayerState F))
      → IsMap states
      → p ∈ alive states
      → Lives (lookup p states)
  unfolding alive lookup
  alive-Lives p [] h m = absurd m
  alive-Lives p ((j, st) ∷ states) h m = elim (Bool-cases (has_lost st.status)) [
    | inl lost ↦ other (alive-Lives p states h.1) (rw (alive, lost) at m)
    | inr plays ↦ elim (rw (alive, plays) at m) as (λ _. Lives (lookup p ((j, st) ∷ states))) [
      | inl same ↦ rw (lookup, (eq_iff j p).1 (sym same)) plays
      | inr later ↦ other (alive-Lives p states h.1) later
    ]
  ]
    where
      other :
          (p ∈ alive states → Lives (lookup p states))
          → p ∈ alive states
          → Lives (lookup p ((j, st) ∷ states))
      other rest later = elim (Bool-cases (str_eq j p)) [
        | inl same ↦ absurd (ground (arith, has-alive p states later, h.0, eq_iff j p, same))
        | inr else_where ↦ rw (lookup, else_where) (rest later)
      ]

  alive_of_Lives :
      (p : String) (states : List (String × PlayerState F))
      → Lives (lookup p states)
      → p ∈ alive states
  unfolding alive lookup
  alive_of_Lives p [] l = absurd l
  alive_of_Lives p ((j, st) ∷ states) l = elim (Bool-cases (str_eq j p)) [
    | inl same ↦
        let plays : has_lost st.status ≡ false = rw same at l in
        rw (alive, plays) (inl (sym ((eq_iff j p).0 same)))
    | inr else_where ↦
        let later = alive_of_Lives p states (rw else_where at l) in
        elim (Bool-cases (has_lost st.status)) [
          | inl lost ↦ rw (alive, lost) later
          | inr plays ↦ rw (alive, plays) (inr later)
        ]
  ]

  -- A list that holds one thing, and that once.
  alive_one :
      (w : String) (states : List (String × PlayerState F))
      → IsMap states
      → w ∈ alive states
      → ((p : String) → p ∈ alive states → p ≡ w)
      → alive states ≡ w ∷ []
  unfolding alive
  alive_one w [] h m only = absurd m
  alive_one w ((j, st) ∷ states) h m only = elim (Bool-cases (has_lost st.status)) [
    | inl lost ↦
        rw (alive, lost)
          (alive_one w states h.1 (rw (alive, lost) at m)
            (λ p later. only p (rw (alive, lost) later)))
    | inr plays ↦
        let is_w : j ≡ w = only j (rw (alive, plays) (inl refl)) in
        let none_else : alive states ≡ [] = nobody (alive states) (λ p later. absurd (
          ground (
            arith,
            has-alive p states later,
            h.0,
            only p (rw (alive, plays) (inr later)),
            is_w,
          ))) in
        rw (alive, plays, none_else, is_w) refl
  ]
    where
      nobody : (ps : List String) → ((p : String) → ¬ (p ∈ ps)) → ps ≡ []
      nobody [] none_in = refl
      nobody (p ∷ ps) none_in = absurd (none_in p (inl refl))

  has-lose_player :
      (q : String) (b : Bool) (p : String) (states : List (String × PlayerState F))
      → has q states ≡ b
      → has q (lose_player p states) ≡ b
  has-lose_player q b p states h =
      lose_player-cases (λ after. has q after ≡ b) p states (λ _. h)
        (λ st e plays. ground (
          arith,
          has-insert p q (record st { status = lose }) states,
          eq_iff p q,
          has_of_lookup p st states e,
        ))

  pub has-expire :
      (timeout now : ℤ) (beats : List (String × ℤ)) (q : String)
      (states : List (String × PlayerState F))
      → has q (expire timeout now beats states) ≡ has q states
  has-expire timeout now beats q states =
      expire-keeps (λ after. has q after ≡ has q states) timeout now beats
        (has-lose_player q (has q states)) states refl

  Lives-lost_or : (o : Option (PlayerState F)) → ¬ Lives (lost_or o)
  Lives-lost_or none l = l
  Lives-lost_or (some st) l = elim (Bool-cases (has_lost st.status)) [
    | inl lost ↦ absurd (ground (arith, lost, rw lost at l))
    | inr plays ↦ absurd (ground (arith, rw plays at l))
  ]

  module _ (timeout now : ℤ) (beats : List (String × ℤ)) (states : List (String × PlayerState F))
      (w : String) (keys : IsMap states) (lives : Lives (lookup w states))
      (timely : late timeout now w beats ≡ false)
      (silent : (p : String)
        → Lives (lookup p states)
        → str_eq p w ≡ false
        → late timeout now p beats ≡ true) where
    -- After the timeouts only one player lives.
    pub alive-expire : alive (expire timeout now beats states) ≡ w ∷ []
    alive-expire =
        let keys' = (expire-IsMap timeout now beats states keys).0 in
        alive_one w (expire timeout now beats states) keys'
          (alive_of_Lives w _ (rw (lookup-expire timeout now beats w states, timely) lives))
          (λ p m. others p (alive-Lives p _ keys' m))
      where
        others : (p : String) → Lives (lookup p (expire timeout now beats states)) → p ≡ w
        others p l = elim (Bool-cases (str_eq p w)) [
          | inl same ↦ (eq_iff p w).0 same
          | inr other ↦ elim (Bool-cases (late timeout now p beats)) [
            | inl due ↦ absurd (
                Lives-lost_or (lookup p states)
                  (rw (lookup-expire timeout now beats p states, due) at l))
            | inr in_time ↦ absurd (
                contradicts in_time
                  (silent p (rw (lookup-expire timeout now beats p states, in_time) at l) other))
          ]
        ]
          where
            contradicts : {b : Bool} → b ≡ false → b ≡ true → ⊥
            contradicts e e' = ground arith
