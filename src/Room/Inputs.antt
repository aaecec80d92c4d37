-- ===== src/Room/Inputs.antt =====
-- Commands that a player submits and the others poll for.
use puzzle_bubble.Prelude.{
  ℕ, zero, suc, ◌+◌, ◌-◌, ◌%◌, ◌^◌, ◌≤◌, ◌<◌, ◌≡◌, refl, sym, ◌∙◌, arith, ℤ, ltb, true, false,
  Bool-cases, inl, inr, some, List, [], ◌∷◌, ◌++◌, length, length-append, drop, String, str_eq,
  lookup, lookup-insert,
}
use text.Mathlib.TextPositions.{eq_refl}
use puzzle_bubble.Room.{
  Manager, Room, CommandEvent, ok, is_playing, must_get_player_room, submit_input, pull_inputs,
  newer, log, submitted, current_frame, store,
}

below_mod : (n : ℕ) → n < 2 ^ 64 → n % 2 ^ 64 ≡ n
below_mod n lt = omega arith

module _ {Payload : Type 0} where
  -- The numbers of the log count up to `s`, with no wrap-around.
  abbrev pub EndsAt : ℕ → List (CommandEvent Payload) → Type 0
  EndsAt s [] = Unit
  EndsAt s (ev ∷ evs) = (ev.seq + length evs ≡ s) × EndsAt s evs

  newer-none :
      (last_seq s : ℕ) (evs : List (CommandEvent Payload))
      → EndsAt s evs
      → s ≤ last_seq
      → newer last_seq evs ≡ []
  unfolding newer
  newer-none last_seq s [] h le = refl
  newer-none last_seq s (ev ∷ evs) h le = ground (arith, newer-none last_seq s evs h.1 le, h.0)

  newer-all :
      (last_seq s : ℕ) (evs : List (CommandEvent Payload))
      → EndsAt s evs
      → last_seq + length evs ≤ s
      → newer last_seq evs ≡ evs
  unfolding newer
  newer-all last_seq s [] h le = refl
  newer-all last_seq s (ev ∷ evs) h le =
      ground (arith, newer-all last_seq s evs h.1 (omega arith), h.0)

  drop-nil : (n : ℕ) → drop {A = CommandEvent Payload} n [] ≡ []
  drop-nil zero = refl
  drop-nil (suc n) = refl

  drop-zero : (n : ℕ) (evs : List (CommandEvent Payload)) → n ≡ 0 → drop n evs ≡ evs
  drop-zero n evs e = rw e refl

  drop-suc :
      (n k : ℕ) (ev : CommandEvent Payload) (evs : List (CommandEvent Payload))
      → n ≡ suc k
      → drop n (ev ∷ evs) ≡ drop k evs
  drop-suc n k ev evs e = rw e refl

  -- If the commands of a log are numbered one after the other up to `s`, then what is newer than
  -- `last_seq` is the end of the log: its last `s - last_seq` commands, or all of it.
  pub newer_lem :
      (last_seq s : ℕ) (evs : List (CommandEvent Payload))
      → EndsAt s evs
      → newer last_seq evs ≡ drop (length evs - (s - last_seq)) evs
  unfolding newer
  newer_lem last_seq s [] h = sym (drop-nil (length {A = CommandEvent Payload} [] - (s - last_seq)))
  newer_lem last_seq s (ev ∷ evs) h = elim (Bool-cases (ltb last_seq ev.seq)) [
    | inl new ↦
        newer-all last_seq s (ev ∷ evs) h (ground arith)
        ∙ sym (drop-zero (length (ev ∷ evs) - (s - last_seq)) (ev ∷ evs) (ground arith))
    | inr old ↦
        rw (old, newer_lem last_seq s evs h.1)
          (sym (
            drop-suc (length (ev ∷ evs) - (s - last_seq)) (length evs - (s - last_seq)) ev evs
              (ground arith)))
  ]

  drop-EndsAt : (s n : ℕ) (evs : List (CommandEvent Payload)) → EndsAt s evs → EndsAt s (drop n evs)
  drop-EndsAt s zero evs h = h
  drop-EndsAt s (suc n) [] h = tt
  drop-EndsAt s (suc n) (ev ∷ evs) h = drop-EndsAt s n evs h.1

  newer-append :
      (last_seq : ℕ) (evs more : List (CommandEvent Payload))
      → newer last_seq (evs ++ more) ≡ newer last_seq evs ++ newer last_seq more
  unfolding newer
  newer-append last_seq [] more = refl
  newer-append last_seq (ev ∷ evs) more = ground (arith, newer-append last_seq evs more)

  drop-append :
      (n : ℕ) (evs more : List (CommandEvent Payload))
      → n ≤ length evs
      → drop n (evs ++ more) ≡ drop n evs ++ more
  drop-append zero evs more le = refl
  drop-append (suc n) [] more le = absurd (omega arith)
  drop-append (suc n) (ev ∷ evs) more le = drop-append n evs more (omega arith)

  -- What a logged command leaves of the log, and the command.
  newer-log :
      (s n : ℕ) (evs : List (CommandEvent Payload)) (ev : CommandEvent Payload)
      → EndsAt s evs
      → s < ev.seq
      → n ≤ length evs
      → newer s (drop n (evs ++ ev ∷ [])) ≡ ev ∷ []
  unfolding newer
  newer-log s n evs ev h lt le =
      rw
        (
          drop-append n evs (ev ∷ []) le,
          newer-append s (drop n evs) (ev ∷ []),
          newer-none s s (drop n evs) (drop-EndsAt s n evs h) (omega arith),
        )
        (ground arith)

  newer-submitted :
      (r : Room Payload) (ev : CommandEvent Payload)
      → EndsAt r.cmd_seq r.commands
      → r.cmd_seq < ev.seq
      → newer r.cmd_seq (submitted r ev).commands ≡ ev ∷ []
  unfolding submitted log
  newer-submitted r ev h lt = elim (Bool-cases (ltb 2048 (length (r.commands ++ ev ∷ [])))) [
    | inl over ↦ rw over (
        newer-log r.cmd_seq _ r.commands ev h lt
          (rw (length-append r.commands (ev ∷ [])) (omega arith)))
    | inr fits ↦ rw fits (newer-log r.cmd_seq 0 r.commands ev h lt (omega arith))
  ]

  must_get :
      (m : Manager Payload) (player rid : String) (r : Room Payload)
      → lookup player m.player_room ≡ some rid
      → lookup rid m.rooms ≡ some r
      → must_get_player_room m player ≡ ok (rid, r)
  unfolding must_get_player_room
  must_get m player rid r e at_rid = rw (e, must_get_player_room, at_rid) refl

  pull :
      (m : Manager Payload) (player rid : String) (r : Room Payload) (last_seq : ℕ) (now : ℤ)
      → lookup player m.player_room ≡ some rid
      → lookup rid m.rooms ≡ some r
      → pull_inputs m player last_seq now ≡ ok (newer last_seq r.commands, current_frame m r now, r)
  unfolding pull_inputs
  pull m player rid r last_seq now e at_rid =
      rw (must_get m player rid r e at_rid, pull_inputs) refl

  submit :
      (m : Manager Payload) (player cmd : String) (payload : Payload) (now ms : ℤ) (rid : String)
      (r : Room Payload)
      → lookup player m.player_room ≡ some rid
      → lookup rid m.rooms ≡ some r
      → is_playing r.state ≡ true
      → str_eq cmd "" ≡ false
      → r.cmd_seq + 1 < 2 ^ 64
      → let ev : CommandEvent Payload = record {
        seq = r.cmd_seq + 1;
        frame = current_frame m r now;
        player_id = player;
        cmd = cmd;
        payload = payload;
        ts = ms;
      } in
        submit_input m player cmd payload now ms ≡ (store m rid (submitted r ev), ok ev)
  unfolding submit_input
  submit m player cmd payload now ms rid r e at_rid going given below =
      rw
        (
          must_get m player rid r e at_rid,
          submit_input,
          going,
          given,
          below_mod (r.cmd_seq + 1) below,
        )
        refl

-- When a player submits a command to a game that is playing, if the room's log
-- is numbered without gaps and the numbers have not reached 2^64 - 1, then a player of the same
-- room who had read everything gets exactly that command with the next pull.
pub pull_inputs-submit_input :
    (Payload : Type 0) (m : Manager Payload) (player other cmd : String) (payload : Payload)
    (now ms later : ℤ) (rid : String) (r : Room Payload)
    → lookup player m.player_room ≡ some rid
    → lookup other m.player_room ≡ some rid
    → lookup rid m.rooms ≡ some r
    → is_playing r.state ≡ true
    → str_eq cmd "" ≡ false
    → EndsAt r.cmd_seq r.commands
    → r.cmd_seq + 1 < 2 ^ 64
    → let m' = (submit_input m player cmd payload now ms).0 in
      let ev : CommandEvent Payload = record {
        seq = r.cmd_seq + 1;
        frame = current_frame m r now;
        player_id = player;
        cmd = cmd;
        payload = payload;
        ts = ms;
      } in
      pull_inputs m' other r.cmd_seq later
      ≡ ok (ev ∷ [], current_frame m' (submitted r ev) later, submitted r ev)
pull_inputs-submit_input Payload m player other cmd payload now ms later rid r at_player at_other
      at_rid going given ends below =
    let ev : CommandEvent Payload = record {
      seq = r.cmd_seq + 1;
      frame = current_frame m r now;
      player_id = player;
      cmd = cmd;
      payload = payload;
      ts = ms;
    } in
    rw
      (
        submit m player cmd payload now ms rid r at_player at_rid going given below,
        pull (store m rid (submitted r ev)) other rid (submitted r ev) r.cmd_seq later at_other
            (rw (lookup-insert rid rid, eq_refl rid)),
        newer-submitted r ev ends (omega arith),
      )
      refl
