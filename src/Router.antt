-- ===== src/Router.antt =====
-- internal/game/router.go: the handlers of messages, by module and action. A handler may fail.
pub mod Routes
pub mod Tests
use package.puzzle_bubble.Prelude.{
  ℕ, ◌||◌, ◌==◌, ℤ, Bool, true, false, if◌then◌else◌, Option, none, some, List, [], ◌∷◌, String,
  str_eq, lookup, insert, has,
}
use Prim.Native.String.{◌++◌}

pub record SessionView : Type 0 where
  pub id : ℕ
  pub player_id : String

pub record Message (Body : Type 0) : Type 0 where
  pub module_name : String
  pub action : String
  pub body : Body

-- The response's code, its text, and the fields of its body.
pub record Response (Body : Type 0) : Type 0 where
  pub code : ℕ
  pub msg : String
  pub body : Option Body

-- What a handler returns; `none` is an error.
abbrev pub Handler : Type 0 → Type 0
Handler Body = SessionView → Message Body → Option (Response Body)

pub data Registered : Type 0 where
  registered invalid_registration already_exists : Registered

unfoldable pub route_key : String → String → String
route_key module_name action = module_name ++ ("/" ++ action)

module _ {Body : Type 0} where
  -- A nil handler is `none`.
  unfoldable pub register :
      List (String × Handler Body)
      → String
      → String
      → Option (Handler Body)
      → List (String × Handler Body) × Registered
  register r module_name action none = (r, invalid_registration)
  register r module_name action (some h) =
      if str_eq module_name "" || str_eq action ""
      then (r, invalid_registration)
      else if has (route_key module_name action) r
      then (r, already_exists)
      else (insert (route_key module_name action) h r, registered)

  unfoldable pub dispatch :
      List (String × Handler Body) → SessionView → Message Body → Option (Response Body)
  dispatch r s msg = elim (lookup (route_key msg.module_name msg.action) r) [
    | none ↦ some (record { code = 404; msg = "route_not_found"; body = none })
    | some h ↦ h s msg
  ]
