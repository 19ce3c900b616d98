-- ===== src/Http/Accounts.antt =====
-- src/controllers/auth.controller.ts and src/controllers/user.controller.ts.
use react_websocket_chat.Prelude.{ℕ, Option}
use react_websocket_chat.Exec.{ok, query, ◌>>=◌}
use react_websocket_chat.Model.{Db}
use react_websocket_chat.Mongo.{Mongo}
use react_websocket_chat.Conversations.{Stamp}
use react_websocket_chat.Server.{JwtPayload}
use react_websocket_chat.Auth.{
  Crypto, SignupInput, LoginInput, AuthResult, signup, login, get_profile,
}
use react_websocket_chat.Users.{UserQuery, list_users}
use react_websocket_chat.Requests.{ListUsersQuery}
use react_websocket_chat.Http.{Response, account, profile, users, to_json, answered, require_user}

abbrev pub account_response : Mongo → (status : ℕ) → AuthResult → Response
account_response m status r = record { status = status; body = account (to_json m r.user) r.token }

unfoldable pub signup_handler :
    Mongo → Crypto → Stamp → (salt : ℕ) → SignupInput → Db → Response × Db
signup_handler m lib stamp salt input =
    answered (signup m lib stamp salt input >>= λ r db. (ok (account_response m 201 r), db))

unfoldable pub login_handler : Mongo → Crypto → ℕ → LoginInput → Db → Response × Db
login_handler m lib now input =
    answered (query (login m lib now input) >>= λ r db. (ok (account_response m 200 r), db))

unfoldable pub me_handler : Mongo → Option JwtPayload → Db → Response × Db
me_handler m user = answered (
    require_user user λ caller. query (get_profile m caller.user_id) >>= λ u db.
    (ok (record { status = 200; body = profile (to_json m u) }), db))

unfoldable pub list_users_handler :
    Mongo → UserQuery → Option JwtPayload → ListUsersQuery → Db → Response × Db
list_users_handler m q user input = answered (
    require_user user λ caller.
      query (list_users m q caller.user_id input.search input.limit) >>= λ listed db.
      (ok (record { status = 200; body = users listed }), db))
