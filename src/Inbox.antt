-- ===== src/Inbox.antt =====
-- frontend-ui/src/hooks/useConversations.ts: the client's list of conversations, kept up to date by
-- the events of the socket. The hook's callbacks are functions of its state.
pub mod Listing
use react_websocket_chat.Prelude.{
  ℕ, String, Bool, true, false, List, [], ◌∷◌, map, Option, none, some, any, filter, find, not,
  str_eq, if◌then◌else◌,
}
use react_websocket_chat.Sanitize.{Text}
use react_websocket_chat.Model.{UserStatus, ConversationType}
use react_websocket_chat.Server.{SocketMessagePayload, PresenceEvent}

-- User and Conversation of frontend-ui/src/types/index.ts
pub record Member : Type 0 where
  pub id : String
  pub username : Text
  pub email : Text
  pub status : UserStatus
  pub last_seen : ℕ

-- What stands among a conversation's members: a user, or only an id, as in the answer to
-- createConversation. The `_id`, `username` and `status` of a string are undefined.
pub data EntryMember : Type 0 where
  populated : Member → EntryMember
  unpopulated : (id : String) → EntryMember

pub record Entry : Type 0 where
  pub id : String
  pub type : ConversationType
  pub name : Option Text
  pub members : List EntryMember
  pub last_message : Option SocketMessagePayload
  pub unread_count : Option ℕ
  pub created_at : ℕ
  pub updated_at : ℕ

pub record Inbox : Type 0 where
  pub conversations : List Entry
  pub loading : Bool
  pub error : Option String

-- refresh, up to its request, and what the request brings: a list, or an error's message, if it is
-- an Error.
unfoldable pub start_refresh : (has_token : Bool) → Inbox → Inbox
start_refresh has_token inbox = if has_token then record inbox { loading = true } else inbox

pub data Refreshed : Type 0 where
  listed : List Entry → Refreshed
  failed : Option String → Refreshed

abbrev pub or_else : String → Option String → String
or_else default none = default
or_else default (some message) = message

unfoldable pub on_refreshed : Refreshed → Inbox → Inbox
on_refreshed (listed entries) inbox = record inbox {
  conversations = entries;
  error = none;
  loading = false;
}
on_refreshed (failed message) inbox = record inbox {
  error = some (or_else "Failed to load conversations" message);
  loading = false;
}

-- prev.splice(idx, 1) at the first conversation with this id
unfoldable pub remove_first : String → List Entry → List Entry
remove_first id [] = []
remove_first id (entry ∷ entries) =
    let rest = remove_first id entries in if str_eq entry.id id then entries else entry ∷ rest

abbrev pub to_front : SocketMessagePayload → List Entry → Option Entry → List Entry
to_front msg entries none = entries
to_front msg entries (some entry) =
    record entry { last_message = some msg } ∷ remove_first msg.conversation_id entries

-- bumpConversationWithMessage
unfoldable pub bump : SocketMessagePayload → List Entry → List Entry
unfolding remove_first
bump msg entries =
    to_front msg entries (find (λ entry. str_eq entry.id msg.conversation_id) entries)

abbrev pub update_member : PresenceEvent → EntryMember → EntryMember
update_member event (populated member) =
    if str_eq member.id event.user_id
    then populated (record member { status = event.status; last_seen = event.last_seen })
    else populated member
update_member event (unpopulated id) = unpopulated id

-- updatePresence
unfoldable pub update_presence : PresenceEvent → List Entry → List Entry
update_presence event =
    map {A = Entry} λ entry. record entry { members = map (update_member event) entry.members }

-- What startConversation does with the server's answer.
unfoldable pub add_started : Entry → List Entry → List Entry
add_started entry entries =
    if any (λ other. str_eq other.id entry.id) entries then entries else entry ∷ entries
