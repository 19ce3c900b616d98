-- ===== src/Examples/Accounts.antt =====
-- The theorems on accounts and requests over HTTP, at concrete inputs.
use Prim.Native.Nat.{min}
use react_websocket_chat.Prelude.{
  if◌then◌else◌, ◌==◌, map, ◌≤◌, ◌≡◌, ◌≢◌, refl, Bool, true, false, [], ◌∷◌, ◌++◌, none, some,
  arith, inr, ◌↔◌, All, length, count,
}
use react_websocket_chat.Sanitize.{Text, trim}
use react_websocket_chat.Exec.{ok}
use react_websocket_chat.Model.{ObjectId, User, online, offline, Db}
use react_websocket_chat.Conversations.{Stamp}
use react_websocket_chat.Server.{JwtPayload}
use react_websocket_chat.Auth.{LoginInput, SignupInput, signup}
use react_websocket_chat.Auth.Unique.{HasUniqueNames}
use react_websocket_chat.Users.{select, list_users}
use react_websocket_chat.Users.Listing.{Searches, list_users-lists}
use react_websocket_chat.Http.{error_handler, PublicUser, account}
use react_websocket_chat.Http.Accounts.{signup_handler}
use react_websocket_chat.Requests.{signup_schema, validate}
use react_websocket_chat.Http.Guards.{bearer, auth_middleware, socket_auth_middleware}
use react_websocket_chat.Http.Tokens.{socket_auth_middleware-agrees}
use react_websocket_chat.Http.App.{Request, get_me, post_signup, app, handle}
use react_websocket_chat.Http.Joins.{handle_joins}
use react_websocket_chat.Auth.Session.{KeepsAccount}
use react_websocket_chat.Http.Refusals.{handle-guarded}
use react_websocket_chat.Http.Failures.{handle_atomic, handle_all, handle_all-HasUniqueNames}
use react_websocket_chat.Session.{authorization}
use react_websocket_chat.Examples.{mongo, to_string}
use react_websocket_chat.Examples.Sample.{ann, bob, db, stamp}
use react_websocket_chat.Examples.Tokens.{zod, libs, crypto, user_query, hash, sign}

-- " carl ", "c@d" and a password
abbrev pub carl : SignupInput
carl = record {
  username = b' ' ∷ b'c' ∷ b'a' ∷ b'r' ∷ b'l' ∷ b' ' ∷ [];
  email = b'c' ∷ b'@' ∷ b'd' ∷ [];
  password = 1 ∷ 2 ∷ 3 ∷ 4 ∷ 5 ∷ 6 ∷ [];
}

abbrev carl_user : User
carl_user = record {
  id = 7;
  username = b'c' ∷ b'a' ∷ b'r' ∷ b'l' ∷ [];
  email = carl.email;
  password_hash = hash 9 carl.password;
  status = offline;
  last_seen = 30;
  created_at = 30;
  updated_at = 30;
}

abbrev pub carl_json : PublicUser
carl_json = record {
  id = to_string 7;
  username = carl_user.username;
  email = carl.email;
  status = offline;
  last_seen = 30;
  created_at = 30;
  updated_at = 30;
}

abbrev pub carl_payload : JwtPayload
carl_payload = record { user_id = to_string 7; username = carl_user.username; email = carl.email }

abbrev pub with_carl : Db
with_carl = record db { users = ann ∷ bob ∷ carl_user ∷ [] }

abbrev pub tomorrow : Stamp
tomorrow = record { new_id = 8; now = 50000 }

abbrev pub join : Request
join = record { authorization = none; is_limited = false; endpoint = post_signup carl }

pub joined :
    handle libs stamp 9 join db
    ≡ (record { status = 201; body = account carl_json (sign 0 carl_payload) }, with_carl)
unfolding app validate signup_schema trim signup_handler signup
joined = refl

-- Everybody has come online since.
abbrev pub come_online : User → User
come_online u = record u { status = online; updated_at = 40 }

abbrev pub by_then : Db
by_then = record with_carl { users = map come_online with_carl.users; messages = [] }

pub come_online-KeepsAccount : (u : User) → KeepsAccount u (come_online u)
come_online-KeepsAccount u = record {
  id = refl;
  username = refl;
  email = refl;
  password_hash = refl;
}

handle-guarded_example :
    ((handle libs stamp 9 (record join { endpoint = get_me }) db).0.status ≡ 401)
    × ((handle libs stamp 9 (record join { endpoint = get_me }) db).1 ≡ db)
handle-guarded_example =
    handle-guarded libs stamp 9 (record join { endpoint = get_me }) db refl
      (λ user authorised. cc (authorised.2))

abbrev as_ann : LoginInput
as_ann = record { email = ann.email; password = 1 ∷ [] }

-- carl signs up again.
refused_twice : 400 ≤ (handle libs stamp 9 join with_carl).0.status
unfolding app validate signup_schema trim signup_handler signup error_handler
refused_twice = omega arith

handle_atomic_example : (handle libs stamp 9 join with_carl).1 ≡ with_carl
handle_atomic_example = handle_atomic libs stamp 9 join with_carl refused_twice

abbrev nobody : Db
nobody = record db { users = [] }

no_names : HasUniqueNames nobody.users
no_names = record { emails = λ e. omega arith; usernames = λ n. omega arith }

handle_all-HasUniqueNames_example :
    HasUniqueNames (handle_all libs ((stamp, 9, join) ∷ (tomorrow, 9, join) ∷ []) nobody).users
handle_all-HasUniqueNames_example =
    handle_all-HasUniqueNames libs ((stamp, 9, join) ∷ (tomorrow, 9, join) ∷ []) nobody no_names

picked : list_users mongo user_query (to_string 1) none 5 db ≡ ok (select bob ∷ [])
unfolding list_users
picked = refl

list_users-lists_example :
    (caller : ObjectId) × (mongo.parse (to_string 1) ≡ some caller)
    × (matches : Text → Bool) × Searches user_query none matches
    × All (λ u. (u.id ≢ caller) × (matches u.username ≡ true)) (select bob ∷ [])
    × (length (select bob ∷ [])
        ≡ min 5 (count (λ u. if u.id == caller then false else matches u.username) db.users))
list_users-lists_example =
    list_users-lists mongo user_query (to_string 1) none 5 db (select bob ∷ []) (omega arith) picked

socket_auth_middleware-agrees_example :
    ((socket_auth_middleware crypto 30 (record { token = none; authorization = none })
        ≡ inr carl_payload)
      ↔ (auth_middleware crypto 30 none ≡ ok carl_payload))
    × ((socket_auth_middleware crypto 30
            (record { token = some (sign 0 carl_payload); authorization = none })
          ≡ inr carl_payload)
        ↔ (auth_middleware crypto 30 (some (bearer ++ sign 0 carl_payload)) ≡ ok carl_payload))
socket_auth_middleware-agrees_example =
    socket_auth_middleware-agrees crypto 30 none (sign 0 carl_payload) carl_payload refl refl

abbrev carl_parsed : SignupInput
carl_parsed = record carl { username = carl_user.username }

carl_valid : signup_schema zod carl ≡ ok carl_parsed
unfolding signup_schema trim
carl_valid = refl

handle_joins_example :
    (handle libs stamp 9
      (record { authorization = none; is_limited = false; endpoint = post_signup carl })
      db).0.status
    ≡ 201
unfolding trim
handle_joins_example = handle_joins libs stamp 9 carl carl_parsed none db carl_valid refl refl
