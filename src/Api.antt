-- ===== src/Api.antt =====
-- frontend-ui/src/lib/api.ts: what each of its functions sends, and what `request` reads of the
-- server's response. The encoding of a path, a query and a body as text is left out: express and zod
-- read back what URLSearchParams and JSON.stringify wrote. So is the header Content-Type, which every
-- request sets to application/json.
pub mod Reload
use react_websocket_chat.Prelude.{
  ℕ, String, Bool, true, false, Option, none, some, ◌==◌, if◌then◌else◌,
}
use react_websocket_chat.Sanitize.{Text}
use react_websocket_chat.Conversations.{CreateConversationInput}
use react_websocket_chat.Http.{
  Body, health, account, profile, users, conversation, conversations, history, failure, Response,
}
use react_websocket_chat.Http.Guards.{nonempty_text}
use react_websocket_chat.Http.App.{
  Endpoint, get_me, get_conversations, post_signup, post_login, post_conversations, get_messages,
  get_users, Request,
}
use react_websocket_chat.Session.{ApiResponse, authorization}

-- A call of one of the functions. A parameter that TypeScript lets out is `none`.
pub data ApiCall : Type 0 where
  signup_call : (username email password : Text) → ApiCall
  login_call : (email password : Text) → ApiCall
  get_me_call list_conversations_call : (token : Text) → ApiCall
  create_conversation_call : (token : Text) → CreateConversationInput → ApiCall
  get_messages_call :
      (token : Text)
      → (conversation_id : String) → (limit : Option ℕ) → (before : Option Text) → ApiCall
  list_users_call : (token : Text) → (search : Option Text) → (limit : Option ℕ) → ApiCall

-- What fetch is given: the header, and the method and path with what they carry.
pub record Fetch : Type 0 where
  pub authorization : Option Text
  pub endpoint : Endpoint

-- if (params.limit) query.set('limit', String(params.limit)), where 0 is none
abbrev pub limit_text : (ℕ → Text) → Option ℕ → Option Text
limit_text show none = none
limit_text show (some n) = if n == 0 then none else some (show n)

-- `show` is String(n).
unfoldable pub fetch_of : (show : ℕ → Text) → ApiCall → Fetch
fetch_of show (signup_call username email password) = record {
  authorization = authorization none;
  endpoint = post_signup (record { username = username; email = email; password = password });
}
fetch_of show (login_call email password) = record {
  authorization = authorization none;
  endpoint = post_login (record { email = email; password = password });
}
fetch_of show (get_me_call token) = record {
  authorization = authorization (some token);
  endpoint = get_me;
}
fetch_of show (list_conversations_call token) = record {
  authorization = authorization (some token);
  endpoint = get_conversations;
}
fetch_of show (create_conversation_call token payload) = record {
  authorization = authorization (some token);
  endpoint = post_conversations payload;
}
fetch_of show (get_messages_call token id limit before) = record {
  authorization = authorization (some token);
  endpoint =
      get_messages id (record { limit = limit_text show limit; before = nonempty_text before });
}
fetch_of show (list_users_call token search limit) = record {
  authorization = authorization (some token);
  endpoint = get_users (record { search = nonempty_text search; limit = limit_text show limit });
}

-- The request as it comes to the server, which limits it or not.
abbrev pub request_of : Bool → Fetch → Request
request_of is_limited f = record {
  authorization = f.authorization;
  is_limited = is_limited;
  endpoint = f.endpoint;
}

abbrev pub says_success : Body → Bool
says_success (failure message) = false
says_success _ = true

abbrev pub message_of : Body → Option String
message_of (failure message) = message
message_of _ = none

-- ApiEnvelope: the `success`, the `message` and the `data` of a body
abbrev pub envelope : Response → ApiResponse Body
envelope r = record {
  status = r.status;
  success = says_success r.body;
  message = message_of r.body;
  payload = r.body;
}
