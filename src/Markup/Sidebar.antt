-- ===== src/Markup/Sidebar.antt =====
-- frontend-ui/src/components/ConversationList.tsx and NewConversationModal.tsx: what they render.

use react_websocket_chat.Prelude.{
  ℕ, String, Bool, false, not, ◌&&◌, ◌||◌, List, [], ◌∷◌, ◌++◌, map, Option, none, some, length,
  ◌==◌, str_eq, if◌then◌else◌,
}
use react_websocket_chat.Sanitize.{Text, is_empty}
use react_websocket_chat.Model.{is_online}
use react_websocket_chat.Server.{SocketMessagePayload}
use react_websocket_chat.Inbox.{Entry, Member}
use react_websocket_chat.Views.{is_active, get_conversation_label, is_other_member_online}
use react_websocket_chat.Forms.{Modal}
use react_websocket_chat.Markup.{
  Node, Attributes, text, literal, number, select_conversation, choose_user, new_conversation,
  close_modal, create_conversation, set_search, stop_propagation, tag_of, plain, class_name, calls,
  div, span, paragraph, when,
}
use react_websocket_chat.Markup.Window.{class_if}

-- conversation.lastMessage?.text || 'No messages yet'
abbrev pub text_or_literal : String → Text → List Node
text_or_literal default t = if is_empty t then literal default ∷ [] else text t ∷ []

abbrev pub preview_nodes : Option SocketMessagePayload → List Node
preview_nodes none = literal "No messages yet" ∷ []
preview_nodes (some msg) = text_or_literal "No messages yet" msg.text

-- !!conversation.unreadCount && …
abbrev pub has_unread : Option ℕ → Bool
has_unread none = false
has_unread (some n) = not (n == 0)

abbrev pub unread_number : Option ℕ → ℕ
unread_number none = 0
unread_number (some n) = n

abbrev pub badge : Option ℕ → Node
badge unread_count = span "unread-badge" (number (unread_number unread_count) ∷ [])

-- The button of a conversation: its class names, and what a click calls.
abbrev pub item_attributes : (active : Option String) → Entry → Attributes
item_attributes active entry = record (calls (select_conversation entry.id)) {
  classes = "conversation-item" ∷ class_if (is_active active entry) "active";
}

abbrev pub dot : Bool → Node
dot online = tag_of "span" (class_name ("status-dot" ∷ class_if online "online")) []

unfoldable pub conversation_item :
    (current_user_id : String) → (active : Option String) → Entry → Node
conversation_item current_user_id active entry = tag_of "li" plain (
    tag_of "button" (item_attributes active entry) (
      dot (is_other_member_online entry current_user_id)
      ∷ span "conversation-info" (
          span "conversation-name" (text (get_conversation_label entry current_user_id) ∷ [])
          ∷ span "conversation-preview" (preview_nodes entry.last_message)
          ∷ [])
      ∷ when (has_unread entry.unread_count) (badge entry.unread_count))
    ∷ [])

-- ConversationList
unfoldable pub conversation_list :
    List Entry → (current_user_id : String) → (active : Option String) → Node
unfolding conversation_item
conversation_list entries current_user_id active =
    tag_of "aside" (class_name ("conversation-list" ∷ [])) (
      div "conversation-list-header" (
        tag_of "h2" plain (literal "Chats" ∷ [])
        ∷ tag_of "button" (calls new_conversation) (literal "+" ∷ [])
        ∷ [])
      ∷ (when (length entries == 0)
            (paragraph "conversation-list-empty" (literal "No conversations yet" ∷ []))
          ++ tag_of "ul" plain (map (conversation_item current_user_id active) entries) ∷ []))

abbrev pub is_selected : Option String → Member → Bool
is_selected none user = false
is_selected (some id) user = str_eq id user.id

unfoldable pub user_item : (selected : Option String) → Member → Node
user_item selected user = tag_of "li" plain (
    tag_of "button"
      (record (calls (choose_user user.id)) {
        classes = "user-select-item" ∷ class_if (is_selected selected user) "selected";
      })
      (dot (is_online user.status) ∷ span "user-select-name" (text user.username ∷ []) ∷ [])
    ∷ [])

abbrev pub error_nodes : (name : String) → Option String → List Node
error_nodes name none = []
error_nodes name (some message) =
    when (not (str_eq message "")) (paragraph name (literal message ∷ []))

abbrev pub hint : Bool → String → List Node
hint shown message =
    when shown (tag_of "li" (class_name ("user-select-hint" ∷ [])) (literal message ∷ []))

-- !selectedUserId, where an empty text is none
abbrev pub has_text : Option String → Bool
has_text none = false
has_text (some s) = not (str_eq s "")

-- NewConversationModal
unfoldable pub new_conversation_modal : Modal → Node
unfolding user_item
new_conversation_modal modal =
    tag_of "div" (record (calls close_modal) { classes = "modal-backdrop" ∷ [] })
      (tag_of "div" (record (calls stop_propagation) { classes = "modal-card" ∷ [] })
          (tag_of "h3" plain (literal "Start a new chat" ∷ [])
            ∷ tag_of "label" (class_name ("field" ∷ [])) (
                tag_of "span" plain (literal "Search by name" ∷ [])
                ∷ tag_of "input" (record (calls set_search) { value = some modal.search }) []
                ∷ [])
            ∷ tag_of "ul" (class_name ("user-select-list" ∷ [])) (
                hint modal.loading_users "Searching…"
                ++ (hint (not modal.loading_users && length modal.users == 0) "No users found"
                    ++ (if modal.loading_users
                        then []
                        else map (user_item modal.selected_user_id) modal.users)))
            ∷ (error_nodes "modal-error" modal.error
                ++ div "modal-actions" (
                    tag_of "button" (calls close_modal) (literal "Cancel" ∷ [])
                    ∷ tag_of "button"
                        (record (calls create_conversation) {
                          is_disabled = not (has_text modal.selected_user_id) || modal.submitting;
                        })
                        (literal (if modal.submitting then "Creating…" else "Start chat") ∷ [])
                    ∷ [])
                  ∷ []))
        ∷ [])
