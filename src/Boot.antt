-- ===== src/Boot.antt =====
-- src/server.ts, src/config/{env,db,redis}.ts and initSocketServer of src/sockets/index.ts: how the
-- process is configured, starts and shuts down. What mongoose, redis, http and Socket.IO are asked
-- for is recorded in order; what becomes of their promises is a parameter. Log lines are left out.
pub mod Order
use Prim.Native.String
use react_websocket_chat.Prelude.{
  ℕ, String, Bool, true, false, not, ◌&&◌, List, [], ◌∷◌, ◌++◌, Option, none, some, str_eq, ◌==◌,
  map, is_some, if◌then◌else◌,
}
use react_websocket_chat.Limiter.{RateLimits}

-- process.env: a variable that is not set is `none`.
abbrev pub Environment : Type 0
Environment = String → Option String

-- EnvConfig
pub record EnvConfig : Type 0 where
  pub port : ℕ
  pub node_env : String
  pub mongo_uri : String
  pub jwt_secret : String
  pub jwt_expires_in : String
  pub client_origin : String
  pub redis_url : String
  pub redis_enabled : Bool
  pub rate_limit_window_ms : ℕ
  pub rate_limit_max_requests : ℕ
  pub socket_rate_limit_max : ℕ
  pub socket_rate_limit_window_ms : ℕ

-- process.env.X || default
unfoldable pub text_setting : Option String → String → String
text_setting none default = default
text_setting (some value) default = if str_eq value "" then default else value

-- Number(process.env.X) || default; `to_number` is Number where that is a whole number from 0 on, and
-- NaN is none.
abbrev pub number_or : Option ℕ → ℕ → ℕ
number_or none default = default
number_or (some n) default = if n == 0 then default else n

unfoldable pub number_setting : (to_number : String → Option ℕ) → Option String → ℕ → ℕ
number_setting to_number none default = default
number_setting to_number (some value) default = number_or (to_number value) default

abbrev pub is_text : Option String → String → Bool
is_text none expected = false
is_text (some value) expected = str_eq value expected

unfoldable pub env_config : (to_number : String → Option ℕ) → Environment → EnvConfig
unfolding text_setting number_setting
env_config to_number process_env = record {
  port = number_setting to_number (process_env "PORT") 5000;
  node_env = text_setting (process_env "NODE_ENV") "development";
  mongo_uri = text_setting (process_env "MONGODB_URI") "mongodb://localhost:27017/realtime-chat";
  jwt_secret = text_setting (process_env "JWT_SECRET") "dev-secret-change-me";
  jwt_expires_in = text_setting (process_env "JWT_EXPIRES_IN") "7d";
  client_origin = text_setting (process_env "CLIENT_ORIGIN") "http://localhost:3000";
  redis_url = text_setting (process_env "REDIS_URL") "redis://localhost:6379";
  redis_enabled = is_text (process_env "REDIS_ENABLED") "true";
  rate_limit_window_ms = number_setting to_number (process_env "RATE_LIMIT_WINDOW_MS") 900000;
  rate_limit_max_requests = number_setting to_number (process_env "RATE_LIMIT_MAX_REQUESTS") 20;
  socket_rate_limit_max = number_setting to_number (process_env "SOCKET_RATE_LIMIT_MAX") 10;
  socket_rate_limit_window_ms =
      number_setting to_number (process_env "SOCKET_RATE_LIMIT_WINDOW_MS") 10000;
}

-- The limits of `message:send`.
abbrev pub limits_of : EnvConfig → RateLimits
limits_of env = record {
  max = env.socket_rate_limit_max;
  window_ms = env.socket_rate_limit_window_ms;
}

-- What the process does.
pub data BootStep : Type 0 where
  connect_db connect_pub connect_sub quit_redis close_db close_server : BootStep
  new_io attach_adapter use_socket_auth use_socket_rate_limit on_io_connection : BootStep
  listen : (port : ℕ) → BootStep
  exit : (code : ℕ) → BootStep

-- What becomes of a promise. node-redis, for one, tries again for ever by default where no Redis
-- answers, so that its promise stays pending.
pub data Settles : Type 0 where
  resolves rejects pending : Settles

-- What becomes of each promise.
pub record Outside : Type 0 where
  pub db_connects : Settles
  pub redis_connects : Settles
  pub redis_quits : Settles
  pub db_closes : Settles

-- The process: what it did, whether `io` is set, and the exit code of each server.close that waits
-- for the last connection to end.
pub record Process : Type 0 where
  pub done : List BootStep
  pub io : Bool
  pub closing : List ℕ

-- How far an async function comes: it waits for a promise that stays pending, and process.exit ends
-- all.
pub data Ended : Type 0 where
  returned rejected waiting exited : Ended

abbrev pub Boot : Type 0
Boot = Process → Ended × Process

abbrev pub after : Ended → Boot → Boot
after returned next p = next p
after rejected next p = (rejected, p)
after waiting next p = (waiting, p)
after exited next p = (exited, p)

infixl 10 ◌>=>◌
abbrev pub ◌>=>◌ : Boot → Boot → Boot
◌>=>◌ first next p = let (ended, p') = first p in after ended next p'

abbrev pub does : BootStep → Boot
does step p = (returned, record p { done = p.done ++ step ∷ [] })

abbrev pub exits : ℕ → Boot
exits code p = (exited, record p { done = p.done ++ exit code ∷ [] })

-- await of such a promise
abbrev pub await : Settles → Boot
await resolves p = (returned, p)
await rejects p = (rejected, p)
await pending p = (waiting, p)

-- try { first } catch { handler }
abbrev pub or_catch : Boot → Ended × Process → Ended × Process
or_catch handler (returned, p) = (returned, p)
or_catch handler (rejected, p) = handler p
or_catch handler (waiting, p) = (waiting, p)
or_catch handler (exited, p) = (exited, p)

-- connectDB of src/config/db.ts: an error is caught, and ends the process.
unfoldable pub connect_database : Outside → Boot
connect_database out p = or_catch (exits 1) ((does connect_db >=> await out.db_connects) p)

-- createRedisAdapterClients of src/config/redis.ts
unfoldable pub create_redis_adapter_clients : Outside → Boot
create_redis_adapter_clients out =
    does connect_pub >=> does connect_sub >=> await out.redis_connects

-- initSocketServer of src/sockets/index.ts: `io` is set first.
unfoldable pub init_socket_server : EnvConfig → Outside → Boot
unfolding create_redis_adapter_clients
init_socket_server env out =
    (λ p. does new_io (record p { io = true }))
    >=> (if env.redis_enabled
        then create_redis_adapter_clients out >=> does attach_adapter
        else (λ p. (returned, p)))
    >=> does use_socket_auth
    >=> does use_socket_rate_limit
    >=> does on_io_connection

-- getSocketServer: whether it returns the server, or throws
unfoldable pub get_socket_server : Process → Bool
get_socket_server p = p.io

-- startServer of src/server.ts
unfoldable pub start_server : EnvConfig → Outside → Boot
unfolding connect_database init_socket_server
start_server env out =
    connect_database out >=> init_socket_server env out >=> does (listen env.port)

-- shutdown, up to the end of the last connection
unfoldable pub shutdown : (exit_code : ℕ) → Process → Process
shutdown exit_code p = record p {
  done = p.done ++ close_server ∷ [];
  closing = p.closing ++ exit_code ∷ [];
}

-- The callback of server.close: try { … } catch { … } finally { process.exit(exitCode) }
abbrev pub finally_exit : ℕ → Ended × Process → Process
finally_exit exit_code (returned, p) = (exits exit_code p).1
finally_exit exit_code (rejected, p) = (exits exit_code p).1
finally_exit exit_code (waiting, p) = p
finally_exit exit_code (exited, p) = p

unfoldable pub on_closed : EnvConfig → Outside → ℕ → Process → Process
on_closed env out exit_code p = finally_exit exit_code (
    ((if env.redis_enabled then does quit_redis >=> await out.redis_quits else λ q. (returned, q))
        >=> does close_db
        >=> await out.db_closes)
      p)

-- A rejection that nothing handles ends in a shutdown with code 1.
abbrev pub unhandled : Ended × Process → Process
unhandled (returned, p) = p
unhandled (rejected, p) = shutdown 1 p
unhandled (waiting, p) = p
unhandled (exited, p) = p

-- The process, once the task of startServer has ended or waits for ever.
unfoldable pub main : EnvConfig → Outside → Process
unfolding start_server shutdown
main env out = unhandled (start_server env out (record { done = []; io = false; closing = [] }))
