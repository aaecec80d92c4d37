-- ===== src/Router/Tests.antt =====
-- Two handlers, on routes of their own.
use puzzle_bubble.Prelude.{
  ◌≡◌, ◌⊎◌, refl, true, false, if◌then◌else◌, none, some, [], String, str_eq, lookup, has, insert,
}
use puzzle_bubble.Router.{SessionView, Message, Handler, registered, route_key, register, dispatch}
use puzzle_bubble.Router.Routes.{route_text, register-dispatch}

abbrev pong : Handler Unit
pong s msg = some (record { code = 0; msg = "ok"; body = none })

abbrev broken : Handler Unit
broken s msg = none

abbrev ann : SessionView
ann = record { id = 1; player_id = "ann" }

abbrev ping : Message Unit
ping = record { module_name = "system"; action = "ping"; body = tt }

-- The first handler stays.
pong_stays :
    dispatch
      (register (register [] "system" "ping" (some pong)).0 "system" "ping" (some broken)).0
      ann
      ping
    ≡ some (record { code = 0; msg = "ok"; body = none })
unfolding register dispatch has lookup insert route_key
pong_stays = refl

register-dispatch_example :
    let out = register [] "system" "ping" (some pong) in
    ((f : Handler Unit) × (some pong ≡ some f)
      × (str_eq "system" "" ≡ false)
      × (str_eq "ping" "" ≡ false)
      × (lookup {V = Handler Unit} (route_text "system" "ping") [] ≡ none)
      × (out.1 ≡ registered)
      × ((s : SessionView) (msg : Message Unit)
          → dispatch out.0 s msg ≡ (
              if str_eq (route_text "system" "ping") (route_text msg.module_name msg.action)
              then f s msg
              else dispatch [] s msg)))
    ⊎ (((some pong ≡ none)
          ⊎ (◌≡◌ {A = String} "system" "")
          ⊎ (◌≡◌ {A = String} "ping" "")
          ⊎ (has {V = Handler Unit} (route_text "system" "ping") [] ≡ true))
        × ¬ (out.1 ≡ registered)
        × (out.0 ≡ []))
register-dispatch_example = register-dispatch [] "system" "ping" (some pong)
