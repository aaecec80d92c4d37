-- ===== src/UserSystem/RoundTrip.antt =====
-- A token that was handed out, shown again.
use puzzle_bubble.Prelude.{
  ℕ, ◌+◌, ◌<◌, ◌≤◌, ◌≡◌, ◌⊎◌, refl, inl, inr, arith, ltb, ◌||◌, true, false, Bool-cases,
  Option-cases, if◌then◌else◌, Option, some, String, str_eq,
}
use text.Mathlib.TextPositions.{eq_refl}
use puzzle_bubble.UserSystem.{
  Config, logged_in, valid, token_not_found, redis_error, token_key, login, validate_token,
}
use puzzle_bubble.UserSystem.Store.{Redis, IsRedis, Got, found, missing, failed, until}

module _ (redis : Redis) (laws : IsRedis redis) (cfg : Config) (positive : 0 < cfg.token_ttl) where
  -- A login that is answered with a token has drawn it and stored it.
  login-cases :
      (st : redis.Store) (user password token named : String) (generated : Option String)
      (now seconds : ℕ)
      → (login redis cfg st user password generated now).1 ≡ logged_in token named seconds
      → (named ≡ user)
        × ((redis.set st (token_key cfg token) user cfg.token_ttl now).1 ≡ true)
        × ((login redis cfg st user password generated now).0
            ≡ (redis.set st (token_key cfg token) user cfg.token_ttl now).0)
  unfolding login
  login-cases st user password token named generated now seconds h =
      elim (Bool-cases (str_eq user "" || str_eq password "")) [
        | inl blank ↦ absurd (ground (arith, blank, h))
        | inr given ↦ elim (Option-cases generated) [
          | inl e ↦ absurd (ground (arith, given, e, h))
          | inr (drawn, e) ↦
              elim (Bool-cases (redis.set st (token_key cfg drawn) user cfg.token_ttl now).1) [
                | inr error ↦ absurd (ground (arith, given, e, error, h))
                | inl done ↦
                    let is_drawn : drawn ≡ token = ground (arith, given, e, done, h) in
                    (
                      ground (arith, given, e, done, h),
                      rw (← is_drawn) done,
                      rw (← is_drawn, login, given, e, done) refl,
                    )
              ]
        ]
      ]

  -- If the store does what Redis documents, tokens live for some time, and a login was answered with
  -- a token that is not empty, then the token is for the user who logged in, and shown later, with
  -- nothing asked in between, it is valid for that user as long as it lives and unknown from then
  -- on; only if the store fails to answer what it holds under the token's key is the answer that
  -- Redis failed.
  pub login-validate_token :
      (st : redis.Store) (user password token named : String) (generated : Option String)
      (now seconds t : ℕ)
      → (login redis cfg st user password generated now).1 ≡ logged_in token named seconds
      → str_eq token "" ≡ false
      → now ≤ t
      → let shown =
          validate_token redis cfg (login redis cfg st user password generated now).0 token t in
        (named ≡ user)
        × (((redis.get (login redis cfg st user password generated now).0 (token_key cfg token) t
                ≡ failed)
              × (shown ≡ redis_error))
            ⊎ (shown ≡ (if ltb t (now + cfg.token_ttl) then valid user else token_not_found)))
  unfolding validate_token
  login-validate_token st user password token named generated now seconds t h given le =
      let (is_user, done, stored) =
        login-cases st user password token named generated now seconds h in
      let st' = (login redis cfg st user password generated now).0 in
      let key = token_key cfg token in
      let held : redis.value st' key t ≡ until cfg.token_ttl now t (some user) =
        rw (stored, laws.set_done st key user cfg.token_ttl now positive done key t le, eq_refl key)
          refl in
      (is_user, answer st' (redis.get st' key t) refl held)
    where
      answer :
          (st' : redis.Store) (got : Got)
          → redis.get st' (token_key cfg token) t ≡ got
          → redis.value st' (token_key cfg token) t ≡ until cfg.token_ttl now t (some user)
          → ((redis.get st' (token_key cfg token) t ≡ failed)
              × (validate_token redis cfg st' token t ≡ redis_error))
            ⊎ (validate_token redis cfg st' token t
                ≡ (if ltb t (now + cfg.token_ttl) then valid user else token_not_found))
      answer st' failed e held = inl (e, rw (validate_token, given, e) refl)
      answer st' (found name) e held =
          let there = laws.get_found st' (token_key cfg token) name t e in
          inr (rw (validate_token, given, e) (ground (arith, there, held)))
      answer st' missing e held =
          let none_there = laws.get_missing st' (token_key cfg token) t e in
          inr (rw (validate_token, given, e) (ground (arith, none_there, held)))
