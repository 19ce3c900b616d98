-- ===== src/Views.antt =====
-- What the components of frontend-ui/src/components/ and frontend-ui/src/pages/ compute and do, apart
-- from the markup. A text that is empty counts as none, as JavaScript's `||` has it.
pub mod Titles
pub mod Receipts
use Prim.Native.String
use mathlib.Core.Option
use react_websocket_chat.Prelude.{
  ℕ, String, Bool, true, false, not, ◌&&◌, List, [], ◌∷◌, Option, none, some, any, find, length,
  str_eq, if◌then◌else◌,
}
use react_websocket_chat.Sanitize.{Text, trim, is_empty}
use react_websocket_chat.Model.{
  is_online, User, UserStatus, online, offline, ConversationType, one_to_one, group, MessageStatus,
  sent, delivered, read,
}
use react_websocket_chat.Mongo.{Mongo}
use react_websocket_chat.Server.{SocketMessagePayload}
use react_websocket_chat.Http.{PublicUser}
use react_websocket_chat.Thread.{Thread, request_read}
use react_websocket_chat.Inbox.{Entry, EntryMember, populated, unpopulated}

-- ChatWindow.tsx. The server sends every sender populated; for a sender that is gone, getSenderId
-- throws.
abbrev pub get_sender_id : Mongo → SocketMessagePayload → Option String
get_sender_id m msg = Option.map (λ u. m.to_string u.id) msg.sender

unfoldable pub status_label : MessageStatus → String
status_label read = "Read"
status_label delivered = "Delivered"
status_label sent = "Sent"

unfoldable pub last_message : List SocketMessagePayload → Option SocketMessagePayload
last_message [] = none
last_message (msg ∷ []) = some msg
last_message (msg ∷ next ∷ rest) = last_message (next ∷ rest)

-- if (last && getSenderId(last) !== currentUserId) onVisibleLastMessage(last._id): the id to mark
abbrev pub is_other_sender : Mongo → String → SocketMessagePayload → Bool
is_other_sender m current_user_id msg = elim msg.sender [
  | none ↦ false
  | some u ↦ not (str_eq (m.to_string u.id) current_user_id)
]

abbrev pub visible_of :
    Mongo → (current_user_id : String) → Option SocketMessagePayload → Option String
visible_of m current_user_id none = none
visible_of m current_user_id (some last) =
    if is_other_sender m current_user_id last then some last.id else none

unfoldable pub visible_last_message :
    Mongo → (current_user_id : String) → List SocketMessagePayload → Option String
unfolding last_message
visible_last_message m current_user_id messages =
    visible_of m current_user_id (last_message messages)

abbrev pub on_visible : Option String → Option String → Thread → Thread
on_visible conversation_id none t = t
on_visible conversation_id (some id) t = request_read conversation_id id t

-- The effect that runs for every new list of messages; ChatPage passes markRead of useMessages.
unfoldable pub on_messages : Mongo → (current_user_id : String) → Option String → Thread → Thread
unfolding visible_last_message
on_messages m current_user_id conversation_id t =
    on_visible conversation_id (visible_last_message m current_user_id t.messages) t

-- ConversationList.tsx
abbrev pub text_or : Text → Option Text → Text
text_or default none = default
text_or default (some t) = if is_empty t then default else t

abbrev pub group_chat : Text
group_chat = b'G' ∷ b'r' ∷ b'o' ∷ b'u' ∷ b'p' ∷ b' ' ∷ b'c' ∷ b'h' ∷ b'a' ∷ b't' ∷ []

abbrev pub unknown_user : Text
unknown_user =
    b'U' ∷ b'n' ∷ b'k' ∷ b'n' ∷ b'o' ∷ b'w' ∷ b'n' ∷ b' ' ∷ b'u' ∷ b's' ∷ b'e' ∷ b'r' ∷ []

-- m._id !== currentUserId
abbrev pub is_other_member : String → EntryMember → Bool
is_other_member current_user_id (populated member) = not (str_eq member.id current_user_id)
is_other_member current_user_id (unpopulated id) = true

-- other?.username
abbrev pub username_of : Option EntryMember → Option Text
username_of none = none
username_of (some (populated member)) = some member.username
username_of (some (unpopulated id)) = none

-- m.status === 'online'
abbrev pub is_online_member : EntryMember → Bool
is_online_member (populated member) = is_online member.status
is_online_member (unpopulated id) = false

abbrev pub label_of : ConversationType → Option Text → List EntryMember → String → Text
label_of group name members current_user_id = text_or group_chat name
label_of one_to_one name members current_user_id =
    text_or unknown_user (username_of (find (is_other_member current_user_id) members))

unfoldable pub get_conversation_label : Entry → (current_user_id : String) → Text
get_conversation_label c current_user_id = label_of c.type c.name c.members current_user_id

unfoldable pub is_other_member_online : Entry → (current_user_id : String) → Bool
is_other_member_online c current_user_id =
    any (λ member. is_other_member current_user_id member && is_online_member member) c.members

-- ChatPage.tsx: its own state, and what it derives from the hooks
pub record Page : Type 0 where
  pub active_conversation_id : Option String
  pub show_new_chat : Bool

abbrev pub is_active : Option String → Entry → Bool
is_active none entry = false
is_active (some id) entry = str_eq entry.id id

unfoldable pub active_conversation : Page → List Entry → Option Entry
active_conversation page entries = find (is_active page.active_conversation_id) entries

pub data Title : Type 0 where
  select_a_conversation : Title
  titled : Text → Title

abbrev pub name_of : Option EntryMember → Text
name_of none = unknown_user
name_of (some (populated other)) = text_or unknown_user (some other.username)
name_of (some (unpopulated id)) = unknown_user

abbrev pub title_of : ConversationType → Option Text → List EntryMember → PublicUser → Title
title_of group name members user = titled (text_or group_chat name)
title_of one_to_one name members user = titled (name_of (find (is_other_member user.id) members))

unfoldable pub title : Option Entry → Option PublicUser → Title
title none user = select_a_conversation
title (some c) none = select_a_conversation
title (some c) (some user) = title_of c.type c.name c.members user

pub data Subtitle : Type 0 where
  no_subtitle is_online_now is_offline_now : Subtitle
  member_count : ℕ → Subtitle

abbrev pub presence_of : Option EntryMember → Subtitle
presence_of none = is_offline_now
presence_of (some other) = if is_online_member other then is_online_now else is_offline_now

abbrev pub subtitle_of : ConversationType → List EntryMember → PublicUser → Subtitle
subtitle_of group members user = member_count (length members)
subtitle_of one_to_one members user = presence_of (find (is_other_member user.id) members)

unfoldable pub subtitle : Option Entry → Option PublicUser → Subtitle
subtitle none user = no_subtitle
subtitle (some c) none = no_subtitle
subtitle (some c) (some user) = subtitle_of c.type c.members user

-- onCreate of ChatPage, when startConversation has answered
unfoldable pub on_started : Entry → Page → Page
on_started conversation page = record page { active_conversation_id = some conversation.id }

-- MessageInput.tsx: handleSubmit, the text that stays and the text that is sent
unfoldable pub submit_message : Text → Text × Option Text
submit_message text =
    let trimmed = trim text in if is_empty trimmed then (text, none) else ([], some trimmed)
