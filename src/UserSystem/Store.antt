-- ===== src/UserSystem/Store.antt =====
-- The commands SET, GET and EXPIRE of Redis, as the user system calls them, and what Redis
-- documents of them.
use puzzle_bubble.Prelude.{
  ℕ, ◌+◌, ◌≡◌, ◌≤◌, ◌<◌, ◌⊎◌, ltb, Bool, true, false, if◌then◌else◌, Option, none, some, String,
  str_eq,
}

pub data Got : Type 0 where
  found : String → Got
  missing failed : Got

-- The Boolean of `set` is `err == nil`. `none` of `expire` is an error, else it is whether the key
-- was there.
pub record Redis : Type 1 where
  pub Store : Type 0
  pub set : Store → String → String → ℕ → ℕ → Store × Bool
  pub get : Store → String → ℕ → Got
  pub expire : Store → String → ℕ → ℕ → Store × Option Bool
  -- What stands under the key at that time, if nobody writes until then.
  pub value : Store → String → ℕ → Option String

-- `ttl` after `now` the key is gone.
abbrev pub until : ℕ → ℕ → ℕ → Option String → Option String
until ttl now t held = if ltb t (now + ttl) then held else none

-- A command that is answered did what it says, and one that is not may have done it or not; both
-- leave the other keys alone.
pub record IsRedis (redis : Redis) : Type 0 where
  pub set_done :
      (st : redis.Store) (k v : String) (ttl now : ℕ)
      → 0 < ttl
      → (redis.set st k v ttl now).1 ≡ true
      → (j : String) (t : ℕ) → now ≤ t
      → redis.value (redis.set st k v ttl now).0 j t
        ≡ (if str_eq k j then until ttl now t (some v) else redis.value st j t)
  pub set_failed :
      (st : redis.Store) (k v : String) (ttl now : ℕ)
      → 0 < ttl
      → (redis.set st k v ttl now).1 ≡ false
      → ((j : String) (t : ℕ)
          → now ≤ t
          → redis.value (redis.set st k v ttl now).0 j t ≡ redis.value st j t)
        ⊎ ((j : String) (t : ℕ)
            → now ≤ t
            → redis.value (redis.set st k v ttl now).0 j t
              ≡ (if str_eq k j then until ttl now t (some v) else redis.value st j t))
  pub get_found :
      (st : redis.Store) (k v : String) (now : ℕ)
      → redis.get st k now ≡ found v
      → redis.value st k now ≡ some v
  pub get_missing :
      (st : redis.Store) (k : String) (now : ℕ)
      → redis.get st k now ≡ missing
      → redis.value st k now ≡ none
  pub expire_held :
      (st : redis.Store) (k : String) (ttl now : ℕ)
      → (redis.expire st k ttl now).1 ≡ some true
      → ((v : String) × (redis.value st k now ≡ some v))
        × ((j : String) (t : ℕ)
            → now ≤ t
            → redis.value (redis.expire st k ttl now).0 j t
              ≡ (if str_eq k j then until ttl now t (redis.value st k now) else redis.value st j t))
  pub expire_gone :
      (st : redis.Store) (k : String) (ttl now : ℕ)
      → (redis.expire st k ttl now).1 ≡ some false
      → (redis.value st k now ≡ none)
        × ((j : String) (t : ℕ)
            → now ≤ t
            → redis.value (redis.expire st k ttl now).0 j t ≡ redis.value st j t)
  pub expire_failed :
      (st : redis.Store) (k : String) (ttl now : ℕ)
      → (redis.expire st k ttl now).1 ≡ none
      → ((j : String) (t : ℕ)
          → now ≤ t
          → redis.value (redis.expire st k ttl now).0 j t ≡ redis.value st j t)
        ⊎ ((j : String) (t : ℕ)
            → now ≤ t
            → redis.value (redis.expire st k ttl now).0 j t
              ≡ (if str_eq k j then until ttl now t (redis.value st k now) else redis.value st j t))
