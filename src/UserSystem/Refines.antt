-- ===== src/UserSystem/Refines.antt =====
-- The user system on top of Redis keeps the promise.
use puzzle_bubble.Prelude.{
  ℕ, ◌<◌, ◌≤◌, ◌≡◌, ◌⊎◌, true, false, Option, none, some, List, [], ◌∷◌, String,
}
use puzzle_bubble.UserSystem.{
  Config, Reply, token_key, login, handle_login, validate_token, refresh_token,
}
use puzzle_bubble.UserSystem.Store.{Redis, IsRedis, failed}
use puzzle_bubble.UserSystem.Tokens.{
  Event, posts, logs_in, validates, refreshes, time, Fault, fine, Grants, holder,
}

module _ (redis : Redis) (cfg : Config) where
  -- The handler of the request.
  unfoldable pub serve : redis.Store → Event → redis.Store × Reply
  serve st (posts is_post body generated now) = handle_login redis cfg st is_post body generated now
  serve st (logs_in user password generated now) = login redis cfg st user password generated now
  serve st (validates token now) = (st, validate_token redis cfg st token now)
  serve st (refreshes token now) = refresh_token redis cfg st token now

  unfoldable pub serve_all : redis.Store → List Event → List Reply
  unfolding serve
  serve_all st [] = []
  serve_all st (e ∷ es) = let (st', reply) = serve st e in reply ∷ serve_all st' es

  -- The store holds, from that time on, the tokens that are granted, under their keys.
  abbrev pub Holds : ℕ → redis.Store → Grants → Type 0
  Holds now st g =
      (token : String) (t : ℕ) → now ≤ t → redis.value st (token_key cfg token) t ≡ holder g token t

  -- The command that the login sends to the store fails; no token was drawn, no command is sent.
  abbrev pub HasFailedSet : redis.Store → String → Option String → ℕ → Type 0
  HasFailedSet st user none now = ⊥
  HasFailedSet st user (some token) now =
      (redis.set st (token_key cfg token) user cfg.token_ttl now).1 ≡ false

  -- The command that the request's handler sends to the store fails.
  abbrev pub HasFailed : redis.Store → Event → Type 0
  HasFailed st (posts false body generated now) = ⊥
  HasFailed st (posts true none generated now) = ⊥
  HasFailed st (posts true (some (user, password)) generated now) =
      HasFailedSet st user generated now
  HasFailed st (logs_in user password generated now) = HasFailedSet st user generated now
  HasFailed st (validates token now) = redis.get st (token_key cfg token) now ≡ failed
  HasFailed st (refreshes token now) =
      (redis.expire st (token_key cfg token) cfg.token_ttl now).1 ≡ none

  -- Each request has its fault, and a fault only where the store's own command failed then.
  abbrev pub AreCaused : redis.Store → List Event → List Fault → Type 0
  AreCaused st [] [] = Unit
  AreCaused st [] (fault ∷ faults) = ⊥
  AreCaused st (e ∷ es) [] = ⊥
  AreCaused st (e ∷ es) (fault ∷ faults) =
      ((fault ≡ fine) ⊎ HasFailed st e) × AreCaused (serve st e).0 es faults

  -- The requests come in the order of their times.
  abbrev pub InOrder : ℕ → List Event → Type 0
  InOrder now [] = Unit
  InOrder now (e ∷ es) = (now ≤ time e) × InOrder (time e) es

module _ (redis : Redis) (laws : IsRedis redis) (cfg : Config) (positive : 0 < cfg.token_ttl) where
  -- The promise gives the same answer, without a fault unless the store's command failed, and the
  -- store still holds what is granted then.
  abbrev Stepped : Type 0 → redis.Store × Reply → ℕ → (Fault → Grants × Reply) → Type 0
  Stepped failure out now promised =
      (fault : Fault) × ((fault ≡ fine) ⊎ failure)
      × (out.1 ≡ (promised fault).1)
      × Holds redis cfg now out.0 (promised fault).0
