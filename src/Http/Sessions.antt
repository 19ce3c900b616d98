-- ===== src/Http/Sessions.antt =====
-- What a client gets over HTTP with and without a session (src/app.ts, src/routes/*.ts).
use react_websocket_chat.Prelude.{◌≡◌}
use react_websocket_chat.Mongo.{Mongo}
use react_websocket_chat.Server.{JwtPayload}
use react_websocket_chat.Auth.Session.{account as new_account}
use react_websocket_chat.Http.{PublicUser, account}

abbrev payload_of_json : PublicUser → JwtPayload
payload_of_json u = record { user_id = u.id; username = u.username; email = u.email }

-- The same account in an answer, whatever its status and times are.
pub record SameAccount (u v : PublicUser) : Type 0 where
  pub id : v.id ≡ u.id
  pub username : v.username ≡ u.username
  pub email : v.email ≡ u.email
