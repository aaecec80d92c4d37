-- ===== src/Config.antt =====
-- internal/config/config.go: the gateway's settings, from a file. Reading the file, and the parsers
-- of durations and log levels, which are Go's, are parameters. Durations are in nanoseconds.
pub mod Errors
pub mod Tests
use package.puzzle_bubble.Prelude.{
  ℕ, ltb, ℤ, pos, if◌then◌else◌, Option, none, some, ◌>>=◌, String, str_eq,
}

pub record Config : Type 0 where
  pub listen_tcp_addr : String
  pub grpc_listen_addr : String
  pub ws_listen_addr : String
  pub auth_grpc_addr : String
  pub lobby_grpc_addr : String
  pub match_grpc_addr : String
  pub room_grpc_addr : String
  pub max_packet_size : ℕ
  pub auth_timeout : ℤ
  pub token_verify_timeout : ℤ
  pub idle_timeout : ℤ
  pub read_timeout : ℤ
  pub write_timeout : ℤ
  pub shutdown_timeout : ℤ
  pub log_level : ℤ

pub record FileConfig : Type 0 where
  pub listen_tcp_addr : String
  pub grpc_listen_addr : String
  pub ws_listen_addr : String
  pub auth_grpc_addr : String
  pub lobby_grpc_addr : String
  pub match_grpc_addr : String
  pub room_grpc_addr : String
  pub max_packet_size : ℕ
  pub auth_timeout : String
  pub token_verify_timeout : String
  pub idle_timeout : String
  pub read_timeout : String
  pub write_timeout : String
  pub shutdown_timeout : String
  pub log_level : String

abbrev pub default_cfg : Config
default_cfg = record {
  listen_tcp_addr = ":7000";
  grpc_listen_addr = ":18080";
  ws_listen_addr = ":18081";
  auth_grpc_addr = "127.0.0.1:19090";
  lobby_grpc_addr = "127.0.0.1:19100";
  match_grpc_addr = "127.0.0.1:19200";
  room_grpc_addr = "127.0.0.1:19300";
  max_packet_size = 65_536;
  auth_timeout = pos 10_000_000_000;
  token_verify_timeout = pos 2_000_000_000;
  idle_timeout = pos 90_000_000_000;
  read_timeout = pos 30_000_000_000;
  write_timeout = pos 10_000_000_000;
  shutdown_timeout = pos 10_000_000_000;
  log_level = pos 0;
}

-- A text of the file, if it is not empty.
abbrev pub given_or : String → String → String
given_or value fallback = if str_eq value "" then fallback else value

module _ (parse : String → Option ℤ) where
  unfoldable pub parse_duration : String → ℤ → Option ℤ
  parse_duration value fallback = if str_eq value "" then some fallback else parse value

-- A level that is none counts as `slog.LevelInfo`.
abbrev pub get_log_level : (String → Option ℤ) → String → ℤ
get_log_level level v = elim (level v) [ none ↦ pos 0 | some l ↦ l ]

module _ (parse : String → Option ℤ) (level : String → Option ℤ) where
  -- `raw` is what the file holds; `none` is the error of reading it, and of the whole.
  unfoldable pub load_from_file : Option FileConfig → Option Config
  load_from_file file = do
    raw ← file
    auth ← parse_duration parse raw.auth_timeout default_cfg.auth_timeout
    verify ← parse_duration parse raw.token_verify_timeout default_cfg.token_verify_timeout
    idle ← parse_duration parse raw.idle_timeout default_cfg.idle_timeout
    reading ← parse_duration parse raw.read_timeout default_cfg.read_timeout
    writing ← parse_duration parse raw.write_timeout default_cfg.write_timeout
    shutdown ← parse_duration parse raw.shutdown_timeout default_cfg.shutdown_timeout
    some (record {
      listen_tcp_addr = given_or raw.listen_tcp_addr default_cfg.listen_tcp_addr;
      grpc_listen_addr = given_or raw.grpc_listen_addr default_cfg.grpc_listen_addr;
      ws_listen_addr = given_or raw.ws_listen_addr default_cfg.ws_listen_addr;
      auth_grpc_addr = given_or raw.auth_grpc_addr default_cfg.auth_grpc_addr;
      lobby_grpc_addr = given_or raw.lobby_grpc_addr default_cfg.lobby_grpc_addr;
      match_grpc_addr = given_or raw.match_grpc_addr default_cfg.match_grpc_addr;
      room_grpc_addr = given_or raw.room_grpc_addr default_cfg.room_grpc_addr;
      max_packet_size =
          if ltb 0 raw.max_packet_size then raw.max_packet_size else default_cfg.max_packet_size;
      auth_timeout = auth;
      token_verify_timeout = verify;
      idle_timeout = idle;
      read_timeout = reading;
      write_timeout = writing;
      shutdown_timeout = shutdown;
      log_level =
          if str_eq raw.log_level ""
          then default_cfg.log_level
          else get_log_level level raw.log_level;
    })
