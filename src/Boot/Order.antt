-- ===== src/Boot/Order.antt =====
-- How the process starts and ends (src/server.ts, src/config/*.ts, src/sockets/index.ts).
use react_websocket_chat.Prelude.{
  ℕ, String, ◌≡◌, Bool, true, false, List, [], ◌∷◌, ◌++◌, Option, none, some, if◌then◌else◌, any,
  arith, str_eq, ◌⊎◌, ◌==◌,
}
use react_websocket_chat.Boot.{
  EnvConfig, text_setting, number_setting, BootStep, connect_db, connect_pub, connect_sub, new_io,
  attach_adapter, use_socket_auth, use_socket_rate_limit, on_io_connection, listen, exit, Settles,
  resolves, rejects, pending, Outside, Process, get_socket_server,
}

abbrev is_listen : BootStep → Bool
is_listen (listen port) = true
is_listen _ = false

abbrev is_exit : BootStep → Bool
is_exit (exit code) = true
is_exit _ = false

abbrev pub adapter_steps : Bool → List BootStep
adapter_steps true = connect_pub ∷ connect_sub ∷ attach_adapter ∷ []
adapter_steps false = []

-- The process serves clients: the database is connected, the adapter is attached if there is one, and
-- sockets pass the authentication, before the port is opened.
pub record Serves (env : EnvConfig) (p : Process) : Type 0 where
  pub order :
      p.done
      ≡ connect_db
        ∷ new_io
        ∷ (adapter_steps env.redis_enabled
            ++ use_socket_auth ∷ use_socket_rate_limit ∷ on_io_connection ∷ listen env.port ∷ [])
  pub reachable : get_socket_server p ≡ true
  pub stays : p.closing ≡ []

-- What the start needs of the libraries, and what makes it fail or wait.
pub data Start : Type 0 where
  runs fails hangs : Start

abbrev pub joined : Settles → Start
joined resolves = runs
joined rejects = fails
joined pending = hangs

abbrev pub start_of : EnvConfig → Outside → Start
start_of env out = elim out.db_connects [
  | resolves ↦ if env.redis_enabled then joined out.redis_connects else runs
  | rejects ↦ fails
  | pending ↦ hangs
]

-- The process opens no port. It ended with code 1, or a shutdown with code 1 is asked for.
pub record Fails (p : Process) : Type 0 where
  pub closed : any is_listen p.done ≡ false
  pub code : (p.done ≡ connect_db ∷ exit 1 ∷ []) ⊎ (p.closing ≡ 1 ∷ [])

-- The process neither opens its port, nor ends, nor is asked to.
pub record Hangs (p : Process) : Type 0 where
  pub closed : any is_listen p.done ≡ false
  pub runs_on : any is_exit p.done ≡ false
  pub stays : p.closing ≡ []

abbrev pub Started : EnvConfig → Start → Process → Type 0
Started env runs p = Serves env p
Started env fails p = Fails p
Started env hangs p = Hangs p

-- No number of the configuration is 0, whatever the environment says.
pub number_setting_positive :
    (to_number : String → Option ℕ) (value : Option String) (default : ℕ)
    → (default == 0) ≡ false
    → (number_setting to_number value default == 0) ≡ false
unfolding number_setting
number_setting_positive to_number none default h = h
number_setting_positive to_number (some value) default h = ground (arith, h)

-- No text of the configuration is empty.
pub text_setting_nonempty :
    (value : Option String) (default : String)
    → str_eq default "" ≡ false
    → str_eq (text_setting value default) "" ≡ false
unfolding text_setting
text_setting_nonempty none default h = h
text_setting_nonempty (some value) default h = ground (arith, h)
