-- ===== src/Markup/Window.antt =====
-- frontend-ui/src/components/ChatWindow.tsx and MessageInput.tsx: what they render. The text of a
-- time is a parameter.
use mathlib.Core.Option
use react_websocket_chat.Prelude.{
  ℕ, String, Bool, true, false, not, ◌&&◌, ◌||◌, List, [], ◌∷◌, ◌++◌, map, Option, none, some, ltb,
  length, ◌==◌, str_eq, if◌then◌else◌,
}
use react_websocket_chat.Sanitize.{Text, trim, is_empty}
use react_websocket_chat.Model.{Sender, is_read}
use react_websocket_chat.Mongo.{Mongo}
use react_websocket_chat.Server.{SocketMessagePayload}
use react_websocket_chat.Views.{
  Title, titled, select_a_conversation, Subtitle, no_subtitle, is_online_now, is_offline_now,
  member_count, status_label, submit_message,
}
use react_websocket_chat.Markup.{
  Node, text, literal, number, submit_message as on_submit, set_text, tag_of, plain, class_name,
  div, span, paragraph, when,
}

-- getSenderId(message) === currentUserId
abbrev pub is_own : Mongo → (current_user_id : String) → Sender → Bool
is_own m current_user_id sender = str_eq (m.to_string sender.id) current_user_id

-- ` own` and ` read` of the class names
abbrev pub class_if : Bool → String → List String
class_if true name = name ∷ []
class_if false name = []

-- The row of one message.
unfoldable pub message_row :
    Mongo → (ℕ → Text) → (current_user_id : String) → SocketMessagePayload → Sender → Node
message_row m time_text current_user_id msg sender =
    let own = is_own m current_user_id sender in
    tag_of "div" (class_name ("message-row" ∷ class_if own "own")) (
      div "message-bubble" (
        when (not own) (span "message-sender" (text sender.username ∷ []))
        ++ paragraph "message-text" (text msg.text ∷ [])
          ∷ span "message-meta" (
              text (time_text msg.created_at)
              ∷ when own (
                  tag_of "span"
                    (class_name ("message-status" ∷ class_if (is_read msg.status) "read"))
                    (literal " " ∷ literal (status_label msg.status) ∷ [])))
          ∷ [])
      ∷ [])

abbrev row_and : Option Node → Option (List Node) → Option (List Node)
row_and none rest = none
row_and (some row) none = none
row_and (some row) (some rows) = some (row ∷ rows)

-- messages.map(…): a sender that is gone is null, and reading its `_id` throws.
unfoldable pub message_rows :
    Mongo → (ℕ → Text) → (current_user_id : String) → List SocketMessagePayload → Option (List Node)
unfolding message_row
message_rows m time_text current_user_id [] = some []
message_rows m time_text current_user_id (msg ∷ messages) =
    let rest = message_rows m time_text current_user_id messages in
    row_and (Option.map (message_row m time_text current_user_id msg) msg.sender) rest

-- typingNames.join(', ')
unfoldable pub join_names : List Text → Text
join_names [] = []
join_names (name ∷ []) = name
join_names (name ∷ next ∷ names) = name ++ b',' ∷ b' ' ∷ join_names (next ∷ names)

abbrev pub title_nodes : Title → List Node
title_nodes select_a_conversation = literal "Select a conversation" ∷ []
title_nodes (titled t) = text t ∷ []

abbrev pub subtitle_nodes : Subtitle → List Node
subtitle_nodes no_subtitle = literal "" ∷ []
subtitle_nodes is_online_now = literal "Online" ∷ []
subtitle_nodes is_offline_now = literal "Offline" ∷ []
subtitle_nodes (member_count n) = number n ∷ literal " members" ∷ []

pub record WindowProps : Type 0 where
  pub messages : List SocketMessagePayload
  pub current_user_id : String
  pub typing_users : List (String × Text)
  pub loading : Bool
  pub title : Title
  pub subtitle : Subtitle

abbrev pub name_in : String × Text → Text
name_in entry = entry.1

unfoldable pub window_of_rows : WindowProps → List Node → Node
unfolding join_names
window_of_rows props rows =
    let typing_names : List Text = map name_in props.typing_users in
    div "chat-window" (
      tag_of "header" (class_name ("chat-window-header" ∷ [])) (
        tag_of "h2" plain (title_nodes props.title)
        ∷ tag_of "p" plain (subtitle_nodes props.subtitle)
        ∷ [])
      ∷ div "chat-window-body" (
          when props.loading (paragraph "chat-window-hint" (literal "Loading messages…" ∷ []))
          ++ (when (not props.loading && length props.messages == 0)
                (paragraph "chat-window-hint" (literal "No messages yet. Say hello!" ∷ []))
              ++ (rows
                  ++ (when (ltb 0 (length typing_names)) (
                        paragraph "typing-indicator"
                          (text (join_names typing_names) ∷ literal " typing…" ∷ []))
                      ++ tag_of "div" plain [] ∷ []))))
      ∷ [])

-- ChatWindow; `none` where rendering throws
unfoldable pub chat_window : Mongo → (ℕ → Text) → WindowProps → Option Node
unfolding message_rows window_of_rows
chat_window m time_text props =
    Option.map (window_of_rows props)
      (message_rows m time_text props.current_user_id props.messages)

-- MessageInput.tsx, with its text; `disabled` is what the parent passes. A change of the text also calls
-- onTyping.
unfoldable pub message_input : (disabled : Bool) → Text → Node
message_input disabled value =
    tag_of "form" (record (class_name ("message-input" ∷ [])) { callback = some on_submit })
      (tag_of "textarea"
          (record plain {
            value = some value;
            callback = some set_text;
            max_length = some 5000;
            is_disabled = disabled;
          })
          []
        ∷ tag_of "button" (record plain { is_disabled = disabled || is_empty (trim value) })
            (literal "Send" ∷ [])
        ∷ [])

-- handleKeyDown: what stays of the text, and what is sent
unfoldable pub on_key_down : (key : String) → (shift_key : Bool) → Text → Text × Option Text
on_key_down key shift_key value =
    if str_eq key "Enter" && not shift_key then submit_message value else (value, none)
