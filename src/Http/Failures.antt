-- ===== src/Http/Failures.antt =====
-- A request that fails leaves the database as it was, and no request makes two accounts of one name
-- (src/app.ts, src/controllers/*.ts).
use react_websocket_chat.Prelude.{
  ℕ, ◌≤◌, String, ◌≡◌, Bool, true, false, List, [], ◌∷◌, Option, some, inl, inr,
}
use react_websocket_chat.Exec.{Result-cases}
use react_websocket_chat.Model.{Db}
use react_websocket_chat.Mongo.{Mongo}
use react_websocket_chat.Conversations.{
  Stamp, assert_membership, get_message_history, list_conversations,
}
use react_websocket_chat.Server.{JwtPayload}
use react_websocket_chat.Auth.{Crypto, LoginInput, login, get_profile}
use react_websocket_chat.Auth.Unique.{HasUniqueNames}
use react_websocket_chat.Http.{
  create_conversation_handler, list_conversations_handler, get_message_history_handler, history,
  conversations, users, profile, to_json,
}
use react_websocket_chat.Http.Guards.{auth_middleware}
use react_websocket_chat.Sanitize.{Text}
use react_websocket_chat.Users.{UserQuery, list_users}
use react_websocket_chat.Requests.{
  ListUsersQuery, signup_schema, login_schema, create_conversation_schema, pagination_query_schema,
  list_users_query_schema, validate,
}
use react_websocket_chat.Http.Accounts.{
  account_response, signup_handler, login_handler, me_handler, list_users_handler,
}
use react_websocket_chat.Http.App.{
  Endpoint, get_health, get_me, get_conversations, post_signup, post_login, post_conversations,
  get_messages, get_users, no_route, Request, Libraries, Handler, authenticated, passed, not_found,
  app, handle,
}
use react_websocket_chat.Http.Writes.{
  IsSafe, unchanged, passed-IsSafe, limited-IsSafe, query-IsSafe, signup_handler-IsSafe,
  create_conversation_handler-IsSafe,
}

authenticated-IsSafe :
    (lib : Crypto) (now : ℕ) (header : Option Text) (next : Option JwtPayload → Handler) (db : Db)
    → ((user : JwtPayload) → IsSafe db (next (some user) db))
    → IsSafe db (authenticated lib now header next db)
authenticated-IsSafe lib now header next db h =
    passed-IsSafe (auth_middleware lib now header) (λ user. next (some user)) db h

get_messages-IsSafe :
    (m : Mongo) (id : String) (limit : ℕ) (before : Option ℕ) (user : JwtPayload) (db : Db)
    → IsSafe db (get_message_history_handler m (some user) id limit before db)
unfolding get_message_history_handler
get_messages-IsSafe m id limit before user db =
    elim (Result-cases (assert_membership m id user.user_id db)) [
      | inl (e, no_member) ↦ rw no_member (unchanged db _)
      | inr (c, member) ↦ rw member (
          query-IsSafe (get_message_history m id limit before db)
            (λ page. record { status = 200; body = history page }) db)
    ]

me_handler-IsSafe :
    (m : Mongo) (user : JwtPayload) (db : Db) → IsSafe db (me_handler m (some user) db)
unfolding me_handler
me_handler-IsSafe m user db =
    query-IsSafe (get_profile m user.user_id db)
      (λ u. record { status = 200; body = profile (to_json m u) }) db

list_conversations_handler-IsSafe :
    (m : Mongo) (user : JwtPayload) (db : Db)
    → IsSafe db (list_conversations_handler m (some user) db)
unfolding list_conversations_handler
list_conversations_handler-IsSafe m user db =
    query-IsSafe (list_conversations m user.user_id db)
      (λ results. record { status = 200; body = conversations results }) db

list_users_handler-IsSafe :
    (m : Mongo) (q : UserQuery) (input : ListUsersQuery) (user : JwtPayload) (db : Db)
    → IsSafe db (list_users_handler m q (some user) input db)
unfolding list_users_handler
list_users_handler-IsSafe m q input user db =
    query-IsSafe (list_users m q user.user_id input.search input.limit db)
      (λ listed. record { status = 200; body = users listed }) db

login_handler-IsSafe :
    (m : Mongo) (lib : Crypto) (now : ℕ) (input : LoginInput) (db : Db)
    → IsSafe db (login_handler m lib now input db)
unfolding login_handler
login_handler-IsSafe m lib now input db =
    query-IsSafe (login m lib now input db) (account_response m 200) db

pub app-IsSafe :
    (libs : Libraries) (stamp : Stamp) (salt : ℕ) (header : Option Text) (is_limited : Bool)
    (endpoint : Endpoint) (db : Db)
    → IsSafe db (app libs stamp salt header is_limited endpoint db)
unfolding app
app-IsSafe libs stamp salt header l get_health db = unchanged db _
app-IsSafe libs stamp salt header l (post_signup payload) db =
    limited-IsSafe l
      (passed (validate (signup_schema libs.zod payload))
        (signup_handler libs.mongo libs.crypto stamp salt))
      db
      (passed-IsSafe (validate (signup_schema libs.zod payload))
        (signup_handler libs.mongo libs.crypto stamp salt) db
        λ input. signup_handler-IsSafe libs.mongo libs.crypto stamp salt input db)
app-IsSafe libs stamp salt header l (post_login payload) db =
    limited-IsSafe l
      (passed (validate (login_schema libs.zod payload))
        (login_handler libs.mongo libs.crypto stamp.now))
      db
      (passed-IsSafe (validate (login_schema libs.zod payload))
        (login_handler libs.mongo libs.crypto stamp.now) db
        λ input. login_handler-IsSafe libs.mongo libs.crypto stamp.now input db)
app-IsSafe libs stamp salt header l get_me db =
    authenticated-IsSafe libs.crypto stamp.now header (me_handler libs.mongo) db
      λ user. me_handler-IsSafe libs.mongo user db
app-IsSafe libs stamp salt header l get_conversations db =
    authenticated-IsSafe libs.crypto stamp.now header (list_conversations_handler libs.mongo) db
      λ user. list_conversations_handler-IsSafe libs.mongo user db
app-IsSafe libs stamp salt header l (post_conversations payload) db =
    passed-IsSafe (auth_middleware libs.crypto stamp.now header) _ db λ user.
      passed-IsSafe (validate (create_conversation_schema libs.mongo libs.zod payload))
        (create_conversation_handler libs.mongo stamp (some user)) db
        λ input. create_conversation_handler-IsSafe libs.mongo stamp (some user) input db
app-IsSafe libs stamp salt header l (get_messages id payload) db =
    passed-IsSafe (auth_middleware libs.crypto stamp.now header) _ db λ user.
      passed-IsSafe (validate (pagination_query_schema libs.zod payload)) _ db
        λ q. get_messages-IsSafe libs.mongo id q.limit q.before user db
app-IsSafe libs stamp salt header l (get_users payload) db =
    passed-IsSafe (auth_middleware libs.crypto stamp.now header) _ db λ user.
      passed-IsSafe (validate (list_users_query_schema libs.zod payload))
        (list_users_handler libs.mongo libs.user_query (some user)) db
        λ input. list_users_handler-IsSafe libs.mongo libs.user_query input user db
app-IsSafe libs stamp salt header l (no_route true method url) db =
    authenticated-IsSafe libs.crypto stamp.now header (λ _. not_found method url) db
      λ user. unchanged db _
app-IsSafe libs stamp salt header l (no_route false method url) db = unchanged db _

-- A request that is answered with status 400 or more has changed nothing in the database.
pub handle_atomic :
    (libs : Libraries) (stamp : Stamp) (salt : ℕ) (request : Request) (db : Db)
    → 400 ≤ (handle libs stamp salt request db).0.status
    → (handle libs stamp salt request db).1 ≡ db
handle_atomic libs stamp salt r db =
    (app-IsSafe libs stamp salt r.authorization r.is_limited r.endpoint db).atomic

-- The requests of clients, one after the other, each with the time and the new id it is given.
unfoldable pub handle_all : Libraries → List (Stamp × ℕ × Request) → Db → Db
handle_all libs [] db = db
handle_all libs ((stamp, salt, request) ∷ requests) db =
    handle_all libs requests (handle libs stamp salt request db).1

-- If no two accounts share an email, and no two a username, then so it is after any requests.
pub handle_all-HasUniqueNames :
    (libs : Libraries) (requests : List (Stamp × ℕ × Request)) (db : Db)
    → HasUniqueNames db.users
    → HasUniqueNames (handle_all libs requests db).users
unfolding handle_all
handle_all-HasUniqueNames libs [] db h = h
handle_all-HasUniqueNames libs ((stamp, salt, r) ∷ requests) db h =
    handle_all-HasUniqueNames libs requests (handle libs stamp salt r db).1
      ((app-IsSafe libs stamp salt r.authorization r.is_limited r.endpoint db).unique_names h)
