-- ===== src/UserSystem.antt =====
-- internal/usersystem/server.go: logins, and the tokens that they hand out and that Redis keeps.
-- Redis is not part of the repository: it is the store `R`, a parameter, with its three commands.
-- The random bytes of a token, and the time, are arguments. Durations are in milliseconds.
pub mod Store
pub mod Tokens
pub mod Refines
pub mod RoundTrip
pub mod Tests
use package.puzzle_bubble.Prelude.{
  ℕ, ◌/◌, ◌||◌, Bool, true, false, if◌then◌else◌, Option, none, some, List, [], ◌∷◌, String, str_eq,
}
use Prim.Native.String.{◌++◌}
use puzzle_bubble.UserSystem.Store.{Redis, Got, found, missing, failed}

pub record Config : Type 0 where
  pub token_ttl : ℕ
  pub redis_key_prefix : String

-- The answers; over HTTP a login that fails has a status in place of a reason.
pub data Reply : Type 0 where
  method_not_allowed bad_json : Reply
  missing_username_or_password generate_token_failed store_token_failed : Reply
  logged_in : String → String → ℕ → Reply
  missing_token token_not_found redis_error : Reply
  valid : String → Reply
  refreshed : Reply

unfoldable pub token_key : Config → String → String
token_key cfg token =
    (if str_eq cfg.redis_key_prefix "" then "game:token:" else cfg.redis_key_prefix) ++ token

module _ (redis : Redis) (cfg : Config) where
  -- `generated` is what `generateToken` returns; `none` is its error.
  unfoldable pub login : redis.Store → String → String → Option String → ℕ → redis.Store × Reply
  login st user password generated now =
      if str_eq user "" || str_eq password ""
      then (st, missing_username_or_password)
      else elim generated [
        | none ↦ (st, generate_token_failed)
        | some token ↦
            let (st', done) = redis.set st (token_key cfg token) user cfg.token_ttl now in
            if done
            then (st', logged_in token user (cfg.token_ttl / 1_000))
            else (st', store_token_failed)
      ]

  -- `handleLogin`; the body is `none` where it is no JSON of that shape.
  unfoldable pub handle_login :
      redis.Store → Bool → Option (String × String) → Option String → ℕ → redis.Store × Reply
  unfolding login
  handle_login st is_post body generated now =
      if is_post
      then elim body [
        | none ↦ (st, bad_json)
        | some (user, password) ↦ login st user password generated now
      ]
      else (st, method_not_allowed)

  unfoldable pub validate_token : redis.Store → String → ℕ → Reply
  validate_token st token now =
      if str_eq token "" then missing_token else elim (redis.get st (token_key cfg token) now) [
        | found user ↦ valid user
        | missing ↦ token_not_found
        | failed ↦ redis_error
      ]

  unfoldable pub refresh_token : redis.Store → String → ℕ → redis.Store × Reply
  refresh_token st token now =
      if str_eq token ""
      then (st, missing_token)
      else let (st', answer) = redis.expire st (token_key cfg token) cfg.token_ttl now in
        elim answer [
          | none ↦ (st', redis_error)
          | some held ↦ if held then (st', refreshed) else (st', token_not_found)
        ]
