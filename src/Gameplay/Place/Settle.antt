-- ===== src/Gameplay/Place/Settle.antt =====
-- A landed bubble: the invariant of the board, the score, the bubbles and the status.
use puzzle_bubble.Prelude.{
  ℕ, zero, suc, ◌+◌, ◌*◌, ◌%◌, ◌^◌, ◌<◌, ◌≡◌, refl, ◌⊎◌, arith, ℤ, true, false, is_neg, Option,
  none, some,
}
use puzzle_bubble.Gameplay.Grid.{
  Pos, empty_cell, at, put, in_board, occupied, cells, count_occupied,
}
use puzzle_bubble.Gameplay.Grid.Laws.{IsBoard, eq_pos_iff, at-put, put-IsBoard}
use puzzle_bubble.Gameplay.Grid.Count.{count-put-cells}
use puzzle_bubble.Gameplay.Float.{Float}
use puzzle_bubble.Gameplay.State.{PlayerState, board_status, check_state}
use puzzle_bubble.Gameplay.Matches.{clear_matches}
use puzzle_bubble.Gameplay.Matches.Correct.{Cleared, clear_matches-Cleared}
use puzzle_bubble.Gameplay.Floating.{drop_floating}
use puzzle_bubble.Gameplay.Floating.Correct.{Dropped, drop_floating-Dropped}
use puzzle_bubble.Gameplay.Floating.Settled.{IsSettled, Dropped-IsSettled}
use puzzle_bubble.Gameplay.Place.{award, settle}

award_lem : (score n k : ℕ) → score < 2 ^ 64 → award score n k ≡ (score + n * k) % 2 ^ 64
unfolding award
award_lem score zero k h = ground arith
award_lem score (suc n) k h = ground arith

two_awards :
    (score removed dropped : ℕ)
    → score < 2 ^ 64
    → award (award score removed 10) dropped 15 ≡ (score + removed * 10 + dropped * 15) % 2 ^ 64
two_awards score removed dropped h = omega (
  arith,
  award_lem score removed 10 h,
  award_lem (award score removed 10) dropped 15 (omega (arith, award_lem score removed 10 h)),
)

module _ {F : Type 0} where
  -- What `settle` is to return from state `st` and a bubble of colour `color` at `p`.
  pub record Settles (st : PlayerState F) (p : Pos) (color drawn : ℤ) (r : Option (PlayerState F))
      : Type 0 where
    pub out : PlayerState F
    pub removed : ℕ
    pub dropped : ℕ
    pub returns : r ≡ some out
    pub cleared : Cleared (put st.board p color) p (clear_matches (put st.board p color) p)
    pub removed_group : removed ≡ cleared.removed
    pub fallen : Dropped cleared.out (drop_floating cleared.out)
    pub dropped_floating : dropped ≡ fallen.dropped
    pub board_out : out.board ≡ fallen.out
    pub shape : IsBoard out.board
    pub conserved :
        count_occupied out.board cells + removed + dropped ≡ count_occupied st.board cells + 1
    pub cells_out :
        (q : Pos)
        → in_board q ≡ true
        → (at out.board q ≡ empty_cell) ⊎ (at out.board q ≡ at (put st.board p color) q)
    pub settled : IsSettled out.board
    pub score : out.score ≡ (st.score + removed * 10 + dropped * 15) % 2 ^ 64
    pub status : out.status ≡ board_status out.board
    pub loaded : (out.current_color ≡ st.next_color) × (out.next_color ≡ drawn)
    pub idle : out.moving ≡ none
    pub kept :
        (out.shot_seq ≡ st.shot_seq)
        × (out.shot_color ≡ st.shot_color)
        × (out.pending_shot ≡ st.pending_shot)

module _ (fl : Float) where
  -- For a board of the full size, a free cell of it, a colour that is not negative and a score
  -- below 2^64, settling returns. The cells that chains of one colour join to the bubble are
  -- emptied if they are three or more, and none if they are fewer; then exactly the bubbles that
  -- no chain of bubbles joins to the top row are emptied, and every other cell of the board holds
  -- what it held with the bubble in place. The board has the full size, the bubbles that are left
  -- and those that went are one more than before, every bubble left is joined to the top row, the
  -- score grew by 10 for each bubble of the group that went and 15 for each that floated modulo
  -- 2^64, the status is the board's, the next colour is loaded, and nothing is in flight.
  pub settle-Settles :
      (st : PlayerState fl.F) (p : Pos) (color drawn : ℤ)
      → IsBoard st.board
      → in_board p ≡ true
      → occupied st.board p ≡ false
      → is_neg color ≡ false
      → st.score < 2 ^ 64
      → Settles st p color drawn (settle fl st p color drawn)
  unfolding settle check_state
  settle-Settles st p color drawn shape inside free filled small =
      let placed = put st.board p color in
      let shape₁ = put-IsBoard st.board shape color p inside in
      let full : occupied placed p ≡ true =
        ground (arith, at-put st.board shape color p p inside, (eq_pos_iff p p).1 refl) in
      let c = clear_matches-Cleared placed p shape₁ inside full in
      let d = drop_floating-Dropped c.out c.shape in
      record {
        out = check_state (record st {
          board = d.out;
          moving = none;
          score = award (award st.score c.removed 10) d.dropped 15;
          current_color = st.next_color;
          next_color = drawn;
        });
        removed = c.removed;
        dropped = d.dropped;
        returns = rw (c.returns, d.returns);
        cleared = c;
        removed_group = refl;
        fallen = d;
        dropped_floating = refl;
        board_out = refl;
        shape = d.shape;
        conserved =
            ground (arith, c.conserved, d.conserved, count-put-cells st.board shape color p inside);
        cells_out = λ q in_q. ground (arith, c.cells_out q, d.cells_out q in_q);
        settled = Dropped-IsSettled c.out d;
        score = two_awards st.score c.removed d.dropped small;
        status = refl;
        loaded = (refl, refl);
        idle = refl;
        kept = (refl, refl, refl);
      }
