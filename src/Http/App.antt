-- ===== src/Http/App.antt =====
-- src/app.ts and src/routes/*.ts: which middlewares and which handler a request meets, in order.
-- A request is given parsed; its host and the headers that helmet and cors add are left out.
use Prim.Native.String
use react_websocket_chat.Prelude.{ℕ, String, Bool, true, false, Option, some, if◌then◌else◌}
use react_websocket_chat.Sanitize.{Text}
use react_websocket_chat.Exec.{Thrown, app_error, Result, ok, err}
use react_websocket_chat.Model.{Db}
use react_websocket_chat.Mongo.{Mongo}
use react_websocket_chat.Conversations.{Stamp, CreateConversationInput}
use react_websocket_chat.Server.{JwtPayload}
use react_websocket_chat.Auth.{Crypto, SignupInput, LoginInput}
use react_websocket_chat.Users.{UserQuery}
use react_websocket_chat.Requests.{
  Zod, PaginationPayload, ListUsersPayload, signup_schema, login_schema, create_conversation_schema,
  pagination_query_schema, list_users_query_schema, validate,
}
use react_websocket_chat.Http.{
  Response, health, failure, error_handler, create_conversation_handler, list_conversations_handler,
  get_message_history_handler,
}
use react_websocket_chat.Http.Guards.{auth_middleware}
use react_websocket_chat.Http.Accounts.{
  signup_handler, login_handler, me_handler, list_users_handler,
}

-- A method and a path, with what the request carries for it. A path below /api/conversations or
-- /api/users that no route has is `is_guarded`.
pub data Endpoint : Type 0 where
  get_health get_me get_conversations : Endpoint
  post_signup : SignupInput → Endpoint
  post_login : LoginInput → Endpoint
  post_conversations : CreateConversationInput → Endpoint
  get_messages : (id : String) → PaginationPayload → Endpoint
  get_users : ListUsersPayload → Endpoint
  no_route : (is_guarded : Bool) → (method original_url : String) → Endpoint

-- A request: its Authorization header, and whether authRateLimiter refuses its address.
pub record Request : Type 0 where
  pub authorization : Option Text
  pub is_limited : Bool
  pub endpoint : Endpoint

-- The libraries that the server uses.
pub record Libraries : Type 0 where
  pub mongo : Mongo
  pub crypto : Crypto
  pub zod : Zod
  pub user_query : UserQuery

abbrev pub Handler : Type 0
Handler = Db → Response × Db

-- next(error) of a middleware
abbrev pub passed {ℓ} : {A : Type ℓ} → Result A → (A → Handler) → Handler
passed (ok a) next db = next a db
passed (err e) next db = (error_handler e, db)

-- authRateLimiter of src/middlewares/rateLimiter.middleware.ts
abbrev pub auth_rate_limiter : Bool → Handler → Handler
auth_rate_limiter is_limited next db =
    if is_limited
    then (
      record {
        status = 429;
        body = failure (some "Too many requests from this IP, please try again later.");
      },
      db,
    )
    else next db

abbrev pub authenticated : Crypto → ℕ → Option Text → (Option JwtPayload → Handler) → Handler
authenticated lib now header next =
    passed (auth_middleware lib now header) (λ user. next (some user))

unfoldable pub not_found_handler : (method original_url : String) → Thrown
not_found_handler method url = app_error (record {
  message = String.◌++◌ "Route not found: " (String.◌++◌ method (String.◌++◌ " " url));
  status_code = 404;
})

abbrev pub not_found : (method original_url : String) → Handler
not_found method url db = (error_handler (not_found_handler method url), db)

-- The application: the handler of a request, after its middlewares.
unfoldable pub app : Libraries → Stamp → (salt : ℕ) → Option Text → Bool → Endpoint → Handler
app libs stamp salt header is_limited get_health =
    λ db. (record { status = 200; body = health }, db)
app libs stamp salt header is_limited (post_signup payload) = auth_rate_limiter is_limited (
    passed (validate (signup_schema libs.zod payload))
      (signup_handler libs.mongo libs.crypto stamp salt))
app libs stamp salt header is_limited (post_login payload) = auth_rate_limiter is_limited (
    passed (validate (login_schema libs.zod payload))
      (login_handler libs.mongo libs.crypto stamp.now))
app libs stamp salt header is_limited get_me =
    authenticated libs.crypto stamp.now header (me_handler libs.mongo)
app libs stamp salt header is_limited get_conversations =
    authenticated libs.crypto stamp.now header (list_conversations_handler libs.mongo)
app libs stamp salt header is_limited (post_conversations payload) =
    authenticated libs.crypto stamp.now header λ user.
      passed (validate (create_conversation_schema libs.mongo libs.zod payload))
        (create_conversation_handler libs.mongo stamp user)
app libs stamp salt header is_limited (get_messages id payload) =
    authenticated libs.crypto stamp.now header λ user.
      passed (validate (pagination_query_schema libs.zod payload))
        λ q. get_message_history_handler libs.mongo user id q.limit q.before
app libs stamp salt header is_limited (get_users payload) =
    authenticated libs.crypto stamp.now header λ user.
      passed (validate (list_users_query_schema libs.zod payload))
        (list_users_handler libs.mongo libs.user_query user)
app libs stamp salt header is_limited (no_route true method url) =
    authenticated libs.crypto stamp.now header λ user. not_found method url
app libs stamp salt header is_limited (no_route false method url) = not_found method url

abbrev pub handle : Libraries → Stamp → (salt : ℕ) → Request → Handler
handle libs stamp salt r = app libs stamp salt r.authorization r.is_limited r.endpoint
