-- ===== src/Http.antt =====
-- src/controllers/conversation.controller.ts, the bodies of all responses, and the error handler of
-- src/middlewares/errorHandler.middleware.ts. A request is its user, if it is authenticated, and its
-- parsed parameters; a response is its status and its body. A stack in the body is left out, and so
-- is the text of an error that zod or mongoose made.
pub mod Access
pub mod Guards
pub mod Accounts
pub mod App
pub mod Tokens
pub mod Refusals
pub mod Sessions
pub mod Joins
pub mod Writes
pub mod Failures
use react_websocket_chat.Prelude.{ℕ, String, List, Option, none, some}
use react_websocket_chat.Exec.{
  AppError, Thrown, app_error, zod_error, cast_error, validation_error, duplicate_key, bad_query,
  Result, ok, err, Exec, throw, query, ◌>>=◌,
}
use react_websocket_chat.Sanitize.{Text}
use react_websocket_chat.Model.{User, UserStatus, Conversation, Db}
use react_websocket_chat.Mongo.{Mongo}
use react_websocket_chat.Conversations.{
  Stamp, CreateConversationInput, ConversationWithUnreadCount, PaginatedMessages,
  create_conversation, list_conversations, assert_membership, get_message_history,
}
use react_websocket_chat.Users.{ListedUser}
use react_websocket_chat.Server.{JwtPayload}

-- What toJSON of src/models/User.model.ts leaves of a user: no passwordHash.
pub record PublicUser : Type 0 where
  pub id : String
  pub username : Text
  pub email : Text
  pub status : UserStatus
  pub last_seen : ℕ
  pub created_at : ℕ
  pub updated_at : ℕ

abbrev pub to_json : Mongo → User → PublicUser
to_json m u = record {
  id = m.to_string u.id;
  username = u.username;
  email = u.email;
  status = u.status;
  last_seen = u.last_seen;
  created_at = u.created_at;
  updated_at = u.updated_at;
}

pub data Body : Type 0 where
  health : Body
  account : PublicUser → (token : Text) → Body
  profile : PublicUser → Body
  users : List ListedUser → Body
  conversation : Conversation → Body
  conversations : List ConversationWithUnreadCount → Body
  history : PaginatedMessages → Body
  failure : (message : Option String) → Body

pub record Response : Type 0 where
  pub status : ℕ
  pub body : Body

-- errorHandler: `err.statusCode || 500`
unfoldable pub error_handler : Thrown → Response
error_handler (app_error e) = record { status = e.status_code; body = failure (some e.message) }
error_handler (zod_error issues) = record { status = 500; body = failure none }
error_handler cast_error = record { status = 500; body = failure none }
error_handler validation_error = record { status = 500; body = failure none }
error_handler duplicate_key = record { status = 500; body = failure none }
error_handler bad_query = record { status = 500; body = failure none }

-- catch (error) { next(error) }
abbrev pub respond : Result Response → Response
respond (ok response) = response
respond (err e) = error_handler e

abbrev pub answered : Exec Db Response → Db → Response × Db
answered body db = let (r, db') = body db in (respond r, db')

-- if (!req.user) throw …
abbrev pub require_user : Option JwtPayload → (JwtPayload → Exec Db Response) → Exec Db Response
require_user none body =
    throw (app_error (record { message = "Authentication required"; status_code = 401 }))
require_user (some user) body = body user

unfoldable pub create_conversation_handler :
    Mongo → Stamp → Option JwtPayload → CreateConversationInput → Db → Response × Db
create_conversation_handler m stamp user input = answered (
    require_user user λ caller. create_conversation m stamp caller.user_id input >>= λ c db.
    (ok (record { status = 201; body = conversation c }), db))

unfoldable pub list_conversations_handler : Mongo → Option JwtPayload → Db → Response × Db
list_conversations_handler m user = answered (
    require_user user λ caller. query (list_conversations m caller.user_id) >>= λ results db.
    (ok (record { status = 200; body = conversations results }), db))

unfoldable pub get_message_history_handler :
    Mongo
    → Option JwtPayload
    → (id : String) → (limit : ℕ) → (before : Option ℕ) → Db
    → Response × Db
get_message_history_handler m user id limit before = answered (
    require_user user λ caller. query (assert_membership m id caller.user_id) >>= λ _.
    query (get_message_history m id limit before) >>= λ page db.
    (ok (record { status = 200; body = history page }), db))
