-- ===== src/Api/Reload.antt =====
-- From the signup of a client (frontend-ui/src/lib/api.ts, frontend-ui/src/context/AuthContext.tsx)
-- through the server (src/app.ts) to the page that a reload shows.
use react_websocket_chat.Prelude.{◌≡◌, refl, some}
use react_websocket_chat.Sanitize.{Text}
use react_websocket_chat.Http.{PublicUser}
use react_websocket_chat.Session.{Session, received, on_authenticated, app_shell, chat_page}

-- The page shows this user's chat, with a socket that was opened with this token.
pub record ShowsChat (u : PublicUser) (token : Text) (s : Session) : Type 0 where
  pub page : app_shell s ≡ chat_page
  pub user : s.user ≡ some u
  pub token_kept : s.stored_token ≡ some token
  pub socket : s.socket ≡ some (record { token = token })

stored_of_authenticated :
    (u : PublicUser) (token : Text) (s : Session)
    → (on_authenticated (received (u, token)) s).stored_token ≡ some token
unfolding on_authenticated
stored_of_authenticated u token s = refl
