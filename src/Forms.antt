-- ===== src/Forms.antt =====
-- frontend-ui/src/pages/AuthPage.tsx and frontend-ui/src/components/NewConversationModal.tsx: the
-- forms of the client, as functions of their state. A request and its answer are two events, and an
-- error is the message of the Error that was thrown, if it is one.
pub mod Search
use react_websocket_chat.Prelude.{
  ℕ, ◌+◌, ◌-◌, String, Bool, true, false, ◌&&◌, not, List, [], ◌∷◌, Option, none, some, leb, ltb,
  length, is_some, ◌==◌, if◌then◌else◌,
}
use react_websocket_chat.Sanitize.{Text, trim, is_empty}
use react_websocket_chat.Inbox.{Member}

-- AuthPage.tsx
pub data Mode : Type 0 where
  login_mode signup_mode : Mode

pub record AuthForm : Type 0 where
  pub mode : Mode
  pub username : Text
  pub email : Text
  pub password : Text
  pub submitting : Bool

-- What handleSubmit asks of the context.
pub data Credentials : Type 0 where
  login : (email password : Text) → Credentials
  signup : (username email password : Text) → Credentials

abbrev pub credentials_of : Mode → AuthForm → Credentials
credentials_of login_mode form = login form.email form.password
credentials_of signup_mode form = signup form.username form.email form.password

-- handleSubmit, up to its request; the `finally` is on_submitted.
unfoldable pub submit_auth : AuthForm → AuthForm × Credentials
submit_auth form = (record form { submitting = true }, credentials_of form.mode form)

unfoldable pub on_submitted : AuthForm → AuthForm
on_submitted form = record form { submitting = false }

-- NewConversationModal.tsx: the state, the timer of the search with the time it is due, and the
-- requests that are under way, by the search they were sent for.
pub record Modal : Type 0 where
  pub search : Text
  pub users : List Member
  pub selected_user_id : Option String
  pub loading_users : Bool
  pub error : Option String
  pub submitting : Bool
  pub timer : Option ℕ
  pub pending : List (Option Text)

-- The mount: its effect starts the timer; SEARCH_DEBOUNCE_MS is 300.
unfoldable pub open_modal : ℕ → Modal
open_modal now = record {
  search = [];
  users = [];
  selected_user_id = none;
  loading_users = false;
  error = none;
  submitting = false;
  timer = some (now + 300);
  pending = [];
}

-- onChange of the search: the render that follows clears the timer and starts another.
unfoldable pub change_search : ℕ → Text → Modal → Modal
change_search now text modal = record modal {
  search = text;
  selected_user_id = none;
  timer = some (now + 300);
}

-- search.trim() || undefined
abbrev pub search_of : Text → Option Text
search_of text = if is_empty (trim text) then none else some (trim text)

abbrev pub is_due : ℕ → Option ℕ → Bool
is_due now none = false
is_due now (some due) = leb due now

-- The timer's callback, up to its request.
unfoldable pub on_timer : ℕ → Modal → Modal
on_timer now modal =
    if is_due now modal.timer
    then record modal {
      timer = none;
      loading_users = true;
      pending = search_of modal.search ∷ modal.pending;
    }
    else modal

pub data Listed : Type 0 where
  results : List Member → Listed
  failed : Option String → Listed

abbrev pub error_of : String → Option String → String
error_of default none = default
error_of default (some message) = message

abbrev pub show_listed : Listed → Modal → Modal
show_listed (results users) modal = record modal { users = users }
show_listed (failed message) modal = record modal {
  error = some (error_of "Failed to load users" message);
}

-- The requests under way without the one at this place.
abbrev pub without : ℕ → List (Option Text) → List (Option Text)
without i [] = []
without i (search ∷ searches) = if i == 0 then searches else search ∷ without (i - 1) searches

-- What happens when one of the requests is answered.
unfoldable pub on_listed : ℕ → Listed → Modal → Modal
on_listed i listed modal = record (show_listed listed modal) {
  loading_users = false;
  pending = without i modal.pending;
}

unfoldable pub select_user : String → Modal → Modal
select_user id modal = record modal { selected_user_id = some id }

-- handleCreate, up to its request: the member it is for
unfoldable pub submit_create : Modal → Modal × Option String
submit_create modal =
    if is_some modal.selected_user_id
    then (record modal { submitting = true; error = none }, modal.selected_user_id)
    else (modal, none)

-- When it is answered: the modal, and whether onClose is called.
pub data Created : Type 0 where
  created : Created
  not_created : Option String → Created

unfoldable pub on_created : Created → Modal → Modal × Bool
on_created created modal = (record modal { submitting = false }, true)
on_created (not_created message) modal = (
  record modal {
    error = some (error_of "Failed to create conversation" message);
    submitting = false;
  },
  false,
)
