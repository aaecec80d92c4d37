-- ===== src/Config/Tests.antt =====
-- A file whose read timeout is a mistake.
use puzzle_bubble.Prelude.{
  ◌≡◌, ◌↔◌, ◌⊎◌, ◌∈◌, refl, ℤ, pos, Option, none, some, String, str_eq, if◌then◌else◌,
}
use puzzle_bubble.Config.{FileConfig, default_cfg, parse_duration, load_from_file}
use puzzle_bubble.Config.Errors.{durations, IsBad, load_from_file-error}

-- It knows one duration and no level.
abbrev parse : String → Option ℤ
parse v = if str_eq v "1m" then some (pos 60_000_000_000) else none

abbrev level : String → Option ℤ
level v = none

abbrev blank : FileConfig
blank = record {
  listen_tcp_addr = "";
  grpc_listen_addr = "";
  ws_listen_addr = "";
  auth_grpc_addr = "";
  lobby_grpc_addr = "";
  match_grpc_addr = "";
  room_grpc_addr = "";
  max_packet_size = 0;
  auth_timeout = "";
  token_verify_timeout = "";
  idle_timeout = "";
  read_timeout = "";
  write_timeout = "";
  shutdown_timeout = "";
  log_level = "";
}

-- A file that sets nothing gives the defaults.
blank_is_default : load_from_file parse level (some blank) ≡ some default_cfg
unfolding load_from_file parse_duration
blank_is_default = refl

idle_is_set :
    load_from_file parse level (some (record blank { idle_timeout = "1m" }))
    ≡ some (record default_cfg { idle_timeout = pos 60_000_000_000 })
unfolding load_from_file parse_duration
idle_is_set = refl

load_from_file-error_example :
    let file = some (record blank { read_timeout = "soon" }) in
    (load_from_file parse level file ≡ none) ↔ (
      (file ≡ none)
      ⊎ ((raw : FileConfig) × (file ≡ some raw)
          × (v : String) × (v ∈ durations raw)
          × IsBad parse v))
load_from_file-error_example =
    load_from_file-error parse level (some (record blank { read_timeout = "soon" }))
