-- ===== src/Http/Refusals.antt =====
-- Requests that come without a session (src/app.ts, src/routes/*.ts).
use react_websocket_chat.Prelude.{ℕ, ◌≡◌, refl, Bool, true, false, Option, inl, inr}
use react_websocket_chat.Sanitize.{Text}
use react_websocket_chat.Model.{Db}
use react_websocket_chat.Conversations.{Stamp}
use react_websocket_chat.Server.{JwtPayload}
use react_websocket_chat.Auth.{Crypto}
use react_websocket_chat.Requests.{
  create_conversation_schema, pagination_query_schema, list_users_query_schema, validate,
}
use react_websocket_chat.Http.{
  error_handler, create_conversation_handler, list_conversations_handler,
  get_message_history_handler,
}
use react_websocket_chat.Http.Accounts.{me_handler, list_users_handler}
use react_websocket_chat.Http.Tokens.{IsAuthorised, auth_middleware-cases}
use react_websocket_chat.Http.App.{
  Endpoint, get_health, get_me, get_conversations, post_signup, post_login, post_conversations,
  get_messages, get_users, no_route, Request, Libraries, Handler, authenticated, passed, not_found,
  app, handle,
}

-- The endpoints behind authMiddleware.
abbrev pub is_guarded : Endpoint → Bool
is_guarded get_health = false
is_guarded get_me = true
is_guarded get_conversations = true
is_guarded (post_signup payload) = false
is_guarded (post_login payload) = false
is_guarded (post_conversations payload) = true
is_guarded (get_messages id payload) = true
is_guarded (get_users payload) = true
is_guarded (no_route guarded method url) = guarded

module _ (lib : Crypto) (now : ℕ) (header : Option Text)
    (stranger : (user : JwtPayload) → ¬ IsAuthorised lib now header user) (db : Db) where
  pub refused :
      (next : Option JwtPayload → Handler)
      → ((authenticated lib now header next db).0.status ≡ 401)
        × ((authenticated lib now header next db).1 ≡ db)
  unfolding error_handler
  refused next = elim (auth_middleware-cases lib now header) [
    | inl (user, e, valid) ↦ absurd (stranger user valid)
    | inr (message, e) ↦ rw e (refl, refl)
  ]

pub app-guarded :
    (libs : Libraries) (stamp : Stamp) (salt : ℕ) (header : Option Text) (is_limited : Bool)
    (endpoint : Endpoint) (db : Db)
    → is_guarded endpoint ≡ true
    → ((user : JwtPayload) → ¬ IsAuthorised libs.crypto stamp.now header user)
    → ((app libs stamp salt header is_limited endpoint db).0.status ≡ 401)
      × ((app libs stamp salt header is_limited endpoint db).1 ≡ db)
unfolding app
app-guarded libs stamp salt header l get_health db h s = cc
app-guarded libs stamp salt header l get_me db h s =
    refused libs.crypto stamp.now header s db (me_handler libs.mongo)
app-guarded libs stamp salt header l get_conversations db h s =
    refused libs.crypto stamp.now header s db (list_conversations_handler libs.mongo)
app-guarded libs stamp salt header l (post_signup payload) db h s = cc
app-guarded libs stamp salt header l (post_login payload) db h s = cc
app-guarded libs stamp salt header l (post_conversations payload) db h s =
    refused libs.crypto stamp.now header s db (λ user.
      passed (validate (create_conversation_schema libs.mongo libs.zod payload))
        (create_conversation_handler libs.mongo stamp user))
app-guarded libs stamp salt header l (get_messages id payload) db h s =
    refused libs.crypto stamp.now header s db (λ user.
      passed (validate (pagination_query_schema libs.zod payload))
        λ q. get_message_history_handler libs.mongo user id q.limit q.before)
app-guarded libs stamp salt header l (get_users payload) db h s =
    refused libs.crypto stamp.now header s db (λ user.
      passed (validate (list_users_query_schema libs.zod payload))
        (list_users_handler libs.mongo libs.user_query user))
app-guarded libs stamp salt header l (no_route true method url) db h s =
    refused libs.crypto stamp.now header s db (λ _. not_found method url)
app-guarded libs stamp salt header l (no_route false method url) db h s = cc

-- Without an Authorization header that has "Bearer " and a token that is verified, every request to
-- a profile, a conversation or the users is answered with status 401, also where there is no such
-- route, and changes nothing.
pub handle-guarded :
    (libs : Libraries) (stamp : Stamp) (salt : ℕ) (request : Request) (db : Db)
    → is_guarded request.endpoint ≡ true
    → ((user : JwtPayload) → ¬ IsAuthorised libs.crypto stamp.now request.authorization user)
    → ((handle libs stamp salt request db).0.status ≡ 401)
      × ((handle libs stamp salt request db).1 ≡ db)
handle-guarded libs stamp salt request db =
    app-guarded libs stamp salt request.authorization request.is_limited request.endpoint db
