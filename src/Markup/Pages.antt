-- ===== src/Markup/Pages.antt =====
-- frontend-ui/src/pages/AuthPage.tsx, ChatPage.tsx and AppShell of App.tsx: what they render.
use mathlib.Core.Option
use react_websocket_chat.Prelude.{
  ℕ, String, Bool, true, false, ◌&&◌, List, [], ◌∷◌, ◌++◌, Option, none, some, if◌then◌else◌,
}
use react_websocket_chat.Sanitize.{Text}
use react_websocket_chat.Mongo.{Mongo}
use react_websocket_chat.Http.{PublicUser}
use react_websocket_chat.Session.{Session, has_token}
use react_websocket_chat.Thread.{Thread}
use react_websocket_chat.Inbox.{Inbox}
use react_websocket_chat.Views.{Page, active_conversation, title, subtitle}
use react_websocket_chat.Forms.{AuthForm, Mode, login_mode, signup_mode, Modal}
use react_websocket_chat.Markup.{
  Node, Callback, text, literal, set_mode, set_username, set_email, set_password, submit_auth,
  log_out, tag_of, plain, class_name, calls, div, paragraph, when,
}
use react_websocket_chat.Markup.Window.{WindowProps, chat_window, message_input}
use react_websocket_chat.Markup.Sidebar.{
  conversation_list, new_conversation_modal, error_nodes, has_text,
}

-- An input of the form, with its limits; the browser takes no empty text where it is required.
abbrev pub input : Callback → Text → Option ℕ → Option ℕ → Node
input callback value min_length max_length =
    tag_of "input"
      (record (calls callback) {
        value = some value;
        min_length = min_length;
        max_length = max_length;
        is_required = true;
      })
      []

abbrev pub field : String → Node → Node
field name control =
    tag_of "label" (class_name ("field" ∷ []))
      (tag_of "span" plain (literal name ∷ []) ∷ control ∷ [])

abbrev pub is_signup : Mode → Bool
is_signup signup_mode = true
is_signup login_mode = false

abbrev pub switch_nodes : Mode → List Node
switch_nodes login_mode =
    literal "Don't have an account?"
    ∷ literal " "
    ∷ tag_of "button" (calls (set_mode signup_mode)) (literal "Sign up" ∷ [])
    ∷ []
switch_nodes signup_mode =
    literal "Already have an account?"
    ∷ literal " "
    ∷ tag_of "button" (calls (set_mode login_mode)) (literal "Log in" ∷ [])
    ∷ []

abbrev pub heading : Mode → String
heading login_mode = "Log in"
heading signup_mode = "Sign up"

-- AuthPage
unfoldable pub auth_page : AuthForm → (error : Option String) → Node
auth_page form error = div "auth-page" (
    tag_of "form" (record (calls submit_auth) { classes = "auth-card" ∷ [] })
      (tag_of "h1" plain (literal (heading form.mode) ∷ [])
        ∷ (when (is_signup form.mode)
              (field "Username" (input set_username form.username (some 3) (some 30)))
            ++ field "Email" (input set_email form.email none none)
              ∷ field "Password" (input set_password form.password (some 6) (some 72))
              ∷ (error_nodes "auth-error" error
                  ++ tag_of "button"
                      (record (class_name ("auth-submit" ∷ [])) { is_disabled = form.submitting })
                      (literal (if form.submitting then "Please wait…" else heading form.mode) ∷ [])
                    ∷ paragraph "auth-switch" (switch_nodes form.mode)
                    ∷ [])))
    ∷ [])

-- The state of ChatPage and of its children, with what the hooks give it.
pub record ChatState : Type 0 where
  pub session : Session
  pub inbox : Inbox
  pub page : Page
  pub thread : Thread
  pub composer : Text
  pub modal : Modal

abbrev pub window_props : PublicUser → ChatState → WindowProps
window_props user s =
    let active = active_conversation s.page s.inbox.conversations in
    record {
      messages = s.thread.messages;
      current_user_id = user.id;
      typing_users = s.thread.typing_users;
      loading = s.thread.loading;
      title = title active (some user);
      subtitle = subtitle active (some user);
    }

-- The open conversation, or the placeholder; `none` where rendering throws
unfoldable pub active_pane : Mongo → (ℕ → Text) → PublicUser → ChatState → Option Node
active_pane m time_text user s =
    if has_text s.page.active_conversation_id
    then Option.map
        (λ window. div "chat-page-active" (window ∷ message_input false s.composer ∷ []))
        (chat_window m time_text (window_props user s))
    else some (
        div "chat-page-placeholder"
          (tag_of "p" plain (literal "Select a conversation or start a new one" ∷ []) ∷ []))

abbrev pub page_with : PublicUser → ChatState → Node → Node
page_with user s pane = div "chat-page" (
    div "chat-page-topbar" (
      tag_of "span" plain
        (literal "Signed in as " ∷ tag_of "strong" plain (text user.username ∷ []) ∷ [])
      ∷ tag_of "button" (calls log_out) (literal "Log out" ∷ [])
      ∷ [])
    ∷ div "chat-page-body"
        (conversation_list s.inbox.conversations user.id s.page.active_conversation_id ∷ pane ∷ [])
    ∷ when (s.page.show_new_chat && has_token s.session.token) (new_conversation_modal s.modal))

-- ChatPage: nothing without a user
unfoldable pub chat_page : Mongo → (ℕ → Text) → ChatState → Option (Option Node)
unfolding active_pane
chat_page m time_text s = elim s.session.user [
  | none ↦ some none
  | some user ↦ Option.map (λ pane. some (page_with user s pane)) (active_pane m time_text user s)
]
