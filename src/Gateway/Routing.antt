-- ===== src/Gateway/Routing.antt =====
-- Which messages go on to a service.
use puzzle_bubble.Prelude.{
  ℕ, ◌≡◌, inl, inr, arith, ◌==◌, true, false, Bool-cases, Option-cases, some, ◌∈◌,
}
use puzzle_bubble.Gateway.{
  Session, Gateway, World, Envelope, Sent, routed, service_auth, handle_game_message,
}

-- The reply of a service to a game message goes back only on a session that is logged in; the
-- service was asked in the name of the session's player, with the message of the packet, and that
-- was not for the authentication service.
pub handle_game_message-routed :
    (Body : Type 0) (g : Gateway) (id : ℕ) (s : Session) (seq : ℕ) (w : World Body)
    (out : Sent Body) (body : Body)
    → out ∈ (handle_game_message g id s seq w).1
    → out.reply ≡ routed body
    → (s.authenticated ≡ true)
      × (req : Envelope Body) × (w.message ≡ some req)
      × (w.serve s.player_id req ≡ some body)
      × ((req.service_id == service_auth) ≡ false)
      × (out.to ≡ id)
      × (out.seq ≡ seq)
unfolding handle_game_message
handle_game_message-routed Body g id s seq w out body m e = elim (Bool-cases s.authenticated) [
  | inr outside ↦ absurd (ground (arith, m, e))
  | inl inside ↦ elim (Option-cases w.message) [
    | inl none_read ↦ absurd (ground (arith, m, e))
    | inr (req, is) ↦ elim (Option-cases (w.serve s.player_id req)) [
      | inl failed ↦ absurd (ground (arith, m, e))
      | inr (answer, got) ↦ (
        inside,
        req,
        is,
        ground (arith, m, e),
        ground (arith, m, e),
        ground (arith, m, e),
        ground (arith, m, e),
      )
    ]
  ]
]
