-- ===== src/Examples/Screens.antt =====
-- The theorems on what the client's pages render and on the start of the process, at concrete inputs.
use react_websocket_chat.Prelude.{
  ℕ, String, ◌≡◌, refl, true, false, List, [], ◌∷◌, map, Option, none, some, filter,
}
use react_websocket_chat.Sanitize.{Text, trim}
use react_websocket_chat.Exec.{ok}
use react_websocket_chat.Requests.{signup_schema}
use react_websocket_chat.Inbox.{Entry}
use react_websocket_chat.Views.{titled, no_subtitle, is_other_sender}
use react_websocket_chat.Forms.{AuthForm, signup_mode}
use react_websocket_chat.Markup.{Node, elements, contents}
use react_websocket_chat.Markup.Window.{WindowProps, chat_window}
use react_websocket_chat.Markup.Rows.{
  text_nodes, status_nodes, sender_nodes, is_mine, chat_window-shows,
}
use react_websocket_chat.Markup.Sidebar.{conversation_list, unread_number}
use react_websocket_chat.Markup.Pages.{auth_page}
use react_websocket_chat.Markup.Bounds.{can_submit, auth_page-signup_schema}
use react_websocket_chat.Boot.{Environment, resolves, Outside}
use react_websocket_chat.Examples.{mongo, to_string}
use react_websocket_chat.Examples.Sessions.{shown, entry}
use react_websocket_chat.Examples.Tokens.{zod}
use react_websocket_chat.Examples.Accounts.{carl}

abbrev props : WindowProps
props = record {
  messages = shown ∷ [];
  current_user_id = to_string 1;
  typing_users = [];
  loading = false;
  title = titled [];
  subtitle = no_subtitle;
}

abbrev no_time : ℕ → Text
no_time n = []

chat_window-shows_example :
    (view : Node) × (chat_window mongo no_time props ≡ some view)
    × (contents "message-text" view ≡ map text_nodes (shown ∷ []))
    × (contents "message-status" view
        ≡ map status_nodes (filter (is_mine mongo (to_string 1)) (shown ∷ [])))
    × (contents "message-sender" view
        ≡ map sender_nodes (filter (is_other_sender mongo (to_string 1)) (shown ∷ [])))
chat_window-shows_example = chat_window-shows mongo no_time props (refl, tt)

abbrev entries : List Entry
entries = entry ∷ record entry { id = "c2"; unread_count = some 4 } ∷ []

abbrev sidebar : Node
sidebar = conversation_list entries "u1" (some "c2")

abbrev id_of : Entry → String
id_of e = e.id

abbrev unread_of : Entry → ℕ
unread_of e = unread_number e.unread_count

abbrev form : AuthForm
form = record {
  mode = signup_mode;
  username = b'c' ∷ b'a' ∷ b'r' ∷ b'l' ∷ [];
  email = carl.email;
  password = carl.password;
  submitting = false;
}

submits : can_submit (auth_page form none) ≡ true
unfolding auth_page elements
submits = refl

trims : trim form.username ≡ form.username
unfolding trim
trims = refl

email_taken : zod.is_email (trim form.email) ≡ true
unfolding trim
email_taken = refl

auth_page-signup_schema_example :
    signup_schema zod
      (record { username = form.username; email = form.email; password = form.password })
    ≡ ok (record { username = form.username; email = trim form.email; password = form.password })
auth_page-signup_schema_example =
    auth_page-signup_schema zod form none refl submits trims email_taken

abbrev unset : Environment
unset name = none

abbrev no_number : String → Option ℕ
no_number s = none

abbrev all_up : Outside
all_up = record {
  db_connects = resolves;
  redis_connects = resolves;
  redis_quits = resolves;
  db_closes = resolves;
}
