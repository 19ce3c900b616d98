-- ===== src/Session.antt =====
-- frontend-ui/src/context/AuthContext.tsx, lib/socket.ts, request of lib/api.ts, App.tsx and
-- pages/AuthPage.tsx: the session of a client, kept in its state, in localStorage and in the one
-- socket of the module lib/socket.ts. The callbacks are functions of the state; an answer arrives as
-- an event of its own.
pub mod Agreement
use react_websocket_chat.Prelude.{
  ℕ, String, Bool, true, false, ◌&&◌, ◌||◌, not, List, [], ◌∷◌, ◌++◌, Option, none, some, ltb, suc,
  str_eq, if◌then◌else◌,
}
use react_websocket_chat.Sanitize.{Text, is_empty}
use react_websocket_chat.Http.{PublicUser}
use react_websocket_chat.Http.Guards.{bearer}

-- The socket of lib/socket.ts: the token that it was opened with.
pub record Connection : Type 0 where
  pub token : Text

-- The state of AuthProvider, with localStorage's chat_token, the socket, and how many sockets were
-- disconnected. The tabs of a browser share localStorage, and another one may write it at any time
-- (Session/Agreement). `restoring` is the token of the request that the mount sent, while it is under way
-- and was not cancelled.
pub record Session : Type 0 where
  pub stored_token : Option Text
  pub token : Option Text
  pub user : Option PublicUser
  pub loading : Bool
  pub error : Option String
  pub socket : Option Connection
  pub closed_sockets : ℕ
  pub restoring : Option Text

-- socket.disconnect() of the socket there is
abbrev pub close_socket : Option Connection → ℕ → ℕ
close_socket none n = n
close_socket (some c) n = suc n

unfoldable pub connect_socket : Text → Session → Session
connect_socket token s = record s {
  socket = some (record { token = token });
  closed_sockets = close_socket s.socket s.closed_sockets;
}

unfoldable pub disconnect_socket : Session → Session
disconnect_socket s = record s {
  socket = none;
  closed_sockets = close_socket s.socket s.closed_sockets;
}

-- if (!currentToken)
abbrev pub has_token : Option Text → Bool
has_token none = false
has_token (some token) = not (is_empty token)

-- The mount: the state is made from localStorage, and restoreSession runs up to its request.
unfoldable pub mount : Option Text → Session
mount stored =
    let s : Session = record {
      stored_token = stored;
      token = stored;
      user = none;
      loading = true;
      error = none;
      socket = none;
      closed_sockets = 0;
      restoring = none;
    } in
    if has_token stored then record s { restoring = stored } else record s { loading = false }

-- What request of lib/api.ts makes of a response: its data, or the message of the Error it throws.
-- `success` is false if the body says so.
pub record ApiResponse (A : Type 0) : Type 0 where
  pub status : ℕ
  pub success : Bool
  pub message : Option String
  pub payload : A

pub data Answer (A : Type 0) : Type 0 where
  received : A → Answer A
  failed : String → Answer A

abbrev pub message_or : String → Option String → String
message_or default none = default
message_or default (some message) = if str_eq message "" then default else message

-- headers.Authorization
unfoldable pub authorization : Option Text → Option Text
authorization none = none
authorization (some token) = if is_empty token then none else some (bearer ++ token)

-- if (!res.ok || json.success === false) throw …; the text of the default message is a parameter.
unfoldable pub request_answer : {A : Type 0} → (ℕ → String) → ApiResponse A → Answer A
request_answer default r =
    if ltb r.status 200 || ltb 299 r.status || not r.success
    then failed (message_or (default r.status) r.message)
    else received r.payload

-- The answer to the request of the mount: it counts only while that is not cancelled.
unfoldable pub settle_restored : Answer PublicUser → Option Text → Session → Session
unfolding connect_socket
settle_restored answer none s = s
settle_restored (received me) (some token) s =
    record (connect_socket token (record s { user = some me })) {
      loading = false;
      restoring = none;
    }
settle_restored (failed message) (some token) s = record s {
  stored_token = none;
  token = none;
  user = none;
  loading = false;
  restoring = none;
}

-- restoreSession, when its request is answered
unfoldable pub on_restored : Answer PublicUser → Session → Session
unfolding settle_restored
on_restored answer s = settle_restored answer s.restoring s

-- The cleanup of the effect.
unfoldable pub unmount : Session → Session
unmount s = record s { restoring = none }

unfoldable pub persist_session : Text → PublicUser → Session → Session
unfolding connect_socket
persist_session new_token new_user s =
    connect_socket new_token
      (record s { stored_token = some new_token; token = some new_token; user = some new_user })

-- login and signup, up to their request
unfoldable pub start_request : Session → Session
start_request s = record s { error = none }

-- login and signup, when they are answered
unfoldable pub on_authenticated : Answer (PublicUser × Text) → Session → Session
unfolding persist_session
on_authenticated (received (user, token)) s = persist_session token user s
on_authenticated (failed message) s = record s { error = some message }

unfoldable pub logout : Session → Session
unfolding disconnect_socket
logout s = record (disconnect_socket (record s { stored_token = none })) {
  token = none;
  user = none;
}

-- AppShell
pub data Screen : Type 0 where
  loading_screen chat_page auth_page : Screen

abbrev pub page_of : Option PublicUser → Screen
page_of none = auth_page
page_of (some user) = chat_page

unfoldable pub app_shell : Session → Screen
app_shell s = if s.loading then loading_screen else page_of s.user
