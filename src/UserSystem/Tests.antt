-- ===== src/UserSystem/Tests.antt =====
-- A store in memory in place of Redis, and a login on it.
use puzzle_bubble.Prelude.{
  ℕ, ◌+◌, ◌≤◌, ◌≡◌, ◌⊎◌, refl, arith, ltb, Bool, true, false, if◌then◌else◌, Option, none, some,
  List, [], ◌∷◌, String, str_eq, lookup, insert, lookup-insert,
}
use puzzle_bubble.UserSystem.{
  Config, logged_in, valid, token_not_found, redis_error, refreshed, token_key, login,
  validate_token, refresh_token,
}
use puzzle_bubble.UserSystem.Store.{Redis, IsRedis, Got, found, missing, failed, until}
use puzzle_bubble.UserSystem.Tokens.{Event, logs_in, validates, refreshes}
use puzzle_bubble.UserSystem.Refines.{serve, serve_all}
use puzzle_bubble.UserSystem.RoundTrip.{login-validate_token}

abbrev Memory : Type 0
Memory = List (String × (String × ℕ))

abbrev held_at : Memory → String → ℕ → Option String
held_at st k t = elim (lookup k st) [
  | none ↦ none
  | some (v, end) ↦ if ltb t end then some v else none
]

abbrev expire_at : Memory → String → ℕ → ℕ → Option String → Memory × Option Bool
expire_at st k ttl now none = (st, some false)
expire_at st k ttl now (some v) = (insert k (v, now + ttl) st, some true)

abbrev get_of : Option String → Got
get_of none = missing
get_of (some v) = found v

abbrev memory : Redis
memory = record {
  Store = Memory;
  set = λ st k v ttl now. (insert k (v, now + ttl) st, true);
  get = λ st k now. get_of (held_at st k now);
  expire = λ st k ttl now. expire_at st k ttl now (held_at st k now);
  value = held_at;
}

held_at-insert :
    (st : Memory) (k v j : String) (end t : ℕ)
    → held_at (insert k (v, end) st) j t
      ≡ (if str_eq k j then (if ltb t end then some v else none) else held_at st j t)
held_at-insert st k v j end t = ground (arith, lookup-insert k j (v, end) st)

get_of_found : (v : String) (o : Option String) → get_of o ≡ found v → o ≡ some v
get_of_found v none e = absurd (cc)
get_of_found v (some w) e = cc

get_of_missing : (o : Option String) → get_of o ≡ missing → o ≡ none
get_of_missing none e = refl
get_of_missing (some w) e = absurd (cc)

expire-held :
    (st : Memory) (k : String) (ttl now : ℕ) (o : Option String)
    → held_at st k now ≡ o
    → (expire_at st k ttl now o).1 ≡ some true
    → ((v : String) × (held_at st k now ≡ some v))
      × ((j : String) (t : ℕ)
          → now ≤ t
          → held_at (expire_at st k ttl now o).0 j t
            ≡ (if str_eq k j then until ttl now t o else held_at st j t))
expire-held st k ttl now none held e = absurd (cc)
expire-held st k ttl now (some v) held e =
    ((v, held), λ j t le. held_at-insert st k v j (now + ttl) t)

expire-gone :
    (st : Memory) (k : String) (ttl now : ℕ) (o : Option String)
    → held_at st k now ≡ o
    → (expire_at st k ttl now o).1 ≡ some false
    → (held_at st k now ≡ none)
      × ((j : String) (t : ℕ) → now ≤ t → held_at (expire_at st k ttl now o).0 j t ≡ held_at st j t)
expire-gone st k ttl now none held e = (held, λ j t le. refl)
expire-gone st k ttl now (some v) held e = absurd (cc)

expire-answers :
    (st : Memory) (k : String) (ttl now : ℕ) (o : Option String)
    → ¬ ((expire_at st k ttl now o).1 ≡ none)
expire-answers st k ttl now none e = absurd (cc)
expire-answers st k ttl now (some v) e = absurd (cc)

memory-IsRedis : IsRedis memory
memory-IsRedis = record {
  set_done = λ st k v ttl now positive done j t le. held_at-insert st k v j (now + ttl) t;
  set_failed = λ st k v ttl now positive failed. absurd (cc);
  get_found = λ st k v now e. get_of_found v (held_at st k now) e;
  get_missing = λ st k now e. get_of_missing (held_at st k now) e;
  expire_held = λ st k ttl now e. expire-held st k ttl now (held_at st k now) refl e;
  expire_gone = λ st k ttl now e. expire-gone st k ttl now (held_at st k now) refl e;
  expire_failed = λ st k ttl now e. absurd (expire-answers st k ttl now (held_at st k now) e);
}

abbrev cfg : Config
cfg = record { token_ttl = 60_000; redis_key_prefix = "" }

-- "ann" logs in, the token is shown, refreshed, and shown once more after its end.
abbrev day : List Event
day =
    logs_in "ann" "secret" (some "f00d") 1_000
    ∷ validates "f00d" 2_000
    ∷ refreshes "f00d" 30_000
    ∷ validates "beef" 40_000
    ∷ validates "f00d" 90_000
    ∷ []

answers_of_day :
    serve_all memory cfg [] day
    ≡ logged_in "f00d" "ann" 60 ∷ valid "ann" ∷ refreshed ∷ token_not_found ∷ token_not_found ∷ []
unfolding serve_all serve login validate_token refresh_token token_key lookup insert
answers_of_day = refl

login-validate_token_example :
    let shown =
      validate_token memory cfg
        (login memory cfg [] "ann" "secret" (some "f00d") 5).0
        "f00d"
        60_005 in
    (◌≡◌ {A = String} "ann" "ann")
    × (((memory.get
              (login memory cfg [] "ann" "secret" (some "f00d") 5).0
              (token_key cfg "f00d")
              60_005
            ≡ failed)
          × (shown ≡ redis_error))
        ⊎ (shown ≡ (if ltb 60_005 (5 + 60_000) then valid "ann" else token_not_found)))
unfolding login
login-validate_token_example =
    login-validate_token memory memory-IsRedis cfg (omega arith) [] "ann" "secret" "f00d" "ann"
      (some "f00d") 5 60 60_005 refl refl (omega arith)
