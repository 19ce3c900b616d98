-- ===== src/Markup/Items.antt =====
-- ConversationList (frontend-ui/src/components/ConversationList.tsx) lists every conversation once.
use react_websocket_chat.Prelude.{ℕ, String, Bool, List, Option}
use react_websocket_chat.Inbox.{Entry}
use react_websocket_chat.Markup.{Node, Attributes, Callback, has_class}
use react_websocket_chat.Markup.Sidebar.{conversation_list}

abbrev id_in : Entry → String
id_in e = e.id

abbrev unread_in : Entry → Option ℕ
unread_in e = e.unread_count

abbrev pub callback_of : Attributes → Option Callback
callback_of a = a.callback

module _ (name : String) where
  abbrev p : String → Attributes → Bool
  p tag = has_class name

module _ (uid : String) (active : Option String) where
  abbrev view : List Entry → Node
  view entries = conversation_list entries uid active
