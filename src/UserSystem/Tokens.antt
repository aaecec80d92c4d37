-- ===== src/UserSystem/Tokens.antt =====
-- What the user system promises: a list of granted tokens, each with its user and its end. A
-- request may meet a fault of the store behind it, before or after what it asked for was done.
use puzzle_bubble.Prelude.{
  ℕ, ◌+◌, ◌/◌, ◌||◌, ltb, Bool, if◌then◌else◌, Option, none, some, List, [], ◌∷◌, String, str_eq,
  lookup, insert,
}
use puzzle_bubble.UserSystem.{
  Reply, method_not_allowed, bad_json, missing_username_or_password, generate_token_failed,
  store_token_failed, logged_in, missing_token, token_not_found, redis_error, valid, refreshed,
}

-- A request, with the token that is drawn for it, and its time.
pub data Event : Type 0 where
  posts : Bool → Option (String × String) → Option String → ℕ → Event
  logs_in : String → String → Option String → ℕ → Event
  validates refreshes : String → ℕ → Event

abbrev pub time : Event → ℕ
time (posts is_post body generated now) = now
time (logs_in user password generated now) = now
time (validates token now) = now
time (refreshes token now) = now

pub data Fault : Type 0 where
  fine lost unacknowledged : Fault

-- The user and the end of each token.
abbrev pub Grants : Type 0
Grants = List (String × (String × ℕ))

-- The user of the token at that time.
unfoldable pub holder : Grants → String → ℕ → Option String
holder g token t = elim (lookup token g) [
  | none ↦ none
  | some (user, end) ↦ if ltb t end then some user else none
]

abbrev pub renew : ℕ → Grants → String → ℕ → Grants
renew ttl g token now = elim (holder g token now) [
  | none ↦ g
  | some user ↦ insert token (user, now + ttl) g
]

abbrev granted : ℕ → Grants → String → String → ℕ → Fault → Grants × Reply
granted ttl g user token now fine =
    (insert token (user, now + ttl) g, logged_in token user (ttl / 1_000))
granted ttl g user token now lost = (g, store_token_failed)
granted ttl g user token now unacknowledged = (insert token (user, now + ttl) g, store_token_failed)

abbrev logged : ℕ → Grants → String → String → Option String → ℕ → Fault → Grants × Reply
logged ttl g user password generated now fault =
    if str_eq user "" || str_eq password ""
    then (g, missing_username_or_password)
    else elim generated [
      | none ↦ (g, generate_token_failed)
      | some token ↦ granted ttl g user token now fault
    ]

abbrev checked : Option String → Fault → Reply
checked held fine = elim held [ none ↦ token_not_found | some user ↦ valid user ]
checked held lost = redis_error
checked held unacknowledged = redis_error

abbrev renewed : ℕ → Grants → String → ℕ → Fault → Grants × Reply
renewed ttl g token now fine = (
  renew ttl g token now,
  elim (holder g token now) [ none ↦ token_not_found | some user ↦ refreshed ],
)
renewed ttl g token now lost = (g, redis_error)
renewed ttl g token now unacknowledged = (renew ttl g token now, redis_error)

-- What a request does to the grants, and its answer.
unfoldable pub obey : ℕ → Grants → Event → Fault → Grants × Reply
obey ttl g (posts is_post body generated now) fault =
    if is_post
    then elim body [
      | none ↦ (g, bad_json)
      | some (user, password) ↦ logged ttl g user password generated now fault
    ]
    else (g, method_not_allowed)
obey ttl g (logs_in user password generated now) fault =
    logged ttl g user password generated now fault
obey ttl g (validates token now) fault =
    (g, if str_eq token "" then missing_token else checked (holder g token now) fault)
obey ttl g (refreshes token now) fault =
    if str_eq token "" then (g, missing_token) else renewed ttl g token now fault

-- The answers to the requests, each with its fault.
unfoldable pub obey_all : ℕ → Grants → List Event → List Fault → List Reply
unfolding obey
obey_all ttl g [] faults = []
obey_all ttl g (e ∷ es) [] = []
obey_all ttl g (e ∷ es) (fault ∷ faults) =
    let (g', reply) = obey ttl g e fault in reply ∷ obey_all ttl g' es faults
