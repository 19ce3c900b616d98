-- ===== src/Examples/Sample.antt =====
-- A database with two users and their conversation, and the requests of the examples.
use react_websocket_chat.Prelude.{ℕ, [], ◌∷◌, none, some}
use react_websocket_chat.Sanitize.{Text}
use react_websocket_chat.Model.{
  User, online, offline, Conversation, one_to_one, Message, MessageStatus, sent, delivered, Db,
}
use react_websocket_chat.Limiter.{RateLimits}
use react_websocket_chat.Conversations.{Stamp, CreateConversationInput}
use react_websocket_chat.Messages.{SendMessageInput}
use react_websocket_chat.Validators.{SendMessagePayload}
use react_websocket_chat.Server.{Server, Socket}
use react_websocket_chat.Examples.{to_string}

abbrev pub ann : User
ann = record {
  id = 1;
  username = 97 ∷ 110 ∷ 110 ∷ [];
  email = 97 ∷ 64 ∷ 98 ∷ [];
  password_hash = [];
  status = online;
  last_seen = 5;
  created_at = 1;
  updated_at = 5;
}

abbrev pub bob : User
bob = record ann { id = 2; username = 98 ∷ 111 ∷ 98 ∷ []; status = offline }

abbrev pub chat : Conversation
chat = record {
  id = 3;
  type = one_to_one;
  name = none;
  members = 1 ∷ 2 ∷ [];
  last_message = some 6;
  created_at = 2;
  updated_at = 21;
}

abbrev pub said : (id sender : ℕ) → MessageStatus → (time : ℕ) → Message
said id sender status time = record {
  id = id;
  conversation_id = 3;
  sender_id = sender;
  text = 104 ∷ 105 ∷ [];
  status = status;
  created_at = time;
  updated_at = time;
}

abbrev pub db : Db
db = record {
  users = ann ∷ bob ∷ [];
  conversations = chat ∷ [];
  messages = said 4 1 sent 10 ∷ said 5 1 delivered 20 ∷ said 6 2 sent 21 ∷ [];
}

abbrev pub empty_db : Db
empty_db = record db { conversations = []; messages = [] }

-- Two messages of one millisecond.
abbrev pub tied_db : Db
tied_db = record db { messages = said 4 1 sent 10 ∷ said 5 1 sent 10 ∷ [] }

abbrev pub stamp : Stamp
stamp = record { new_id = 7; now = 30 }

abbrev pub later : Stamp
later = record { new_id = 8; now = 40 }

-- " <b>hi</b> ", and what is left of it
abbrev pub markup : Text
markup = 32 ∷ 60 ∷ 98 ∷ 62 ∷ 104 ∷ 105 ∷ 60 ∷ 47 ∷ 98 ∷ 62 ∷ 32 ∷ []

abbrev pub hi : Text
hi = 104 ∷ 105 ∷ []

abbrev pub reply : SendMessageInput
reply = record { conversation_id = to_string 3; text = hi }

abbrev pub reply_payload : SendMessagePayload
reply_payload = record { conversation_id = to_string 3; text = markup }

abbrev pub with_bob : CreateConversationInput
with_bob = record { type = one_to_one; name = none; members = to_string 2 ∷ [] }

abbrev pub limits : RateLimits
limits = record { max = 2; window_ms = 10 }

abbrev pub socket : Socket
socket = record {
  id = "s1";
  user = record { user_id = to_string 1; username = ann.username; email = ann.email };
}

abbrev pub server : Server
server = record { db = db; buckets = []; active = []; calls = [] }
