-- ===== src/Model.antt =====
-- src/models/*.ts: the documents of the three collections, and the database that holds them.
-- An ObjectId is its number, and a date its milliseconds.
use react_websocket_chat.Prelude.{
  ℕ, Bool, true, false, ◌||◌, List, Option, if◌then◌else◌, ltb, length, any, ◌==◌,
}
use react_websocket_chat.Sanitize.{Text, trim, is_empty}
use react_websocket_chat.Exec.{Result, ok, err, validation_error}

abbrev pub ObjectId : Type 0
ObjectId = ℕ

pub data UserStatus : Type 0 where
  online offline : UserStatus

abbrev pub is_online : UserStatus → Bool
is_online online = true
is_online offline = false

pub record User : Type 0 where
  pub id : ObjectId
  pub username : Text
  pub email : Text
  pub password_hash : Text
  pub status : UserStatus
  pub last_seen : ℕ
  pub created_at : ℕ
  pub updated_at : ℕ

-- A user as a message is populated with it
pub record Sender : Type 0 where
  pub id : ObjectId
  pub username : Text
  pub email : Text

pub data ConversationType : Type 0 where
  one_to_one group : ConversationType

pub record Conversation : Type 0 where
  pub id : ObjectId
  pub type : ConversationType
  pub name : Option Text
  pub members : List ObjectId
  pub last_message : Option ObjectId
  pub created_at : ℕ
  pub updated_at : ℕ

pub data MessageStatus : Type 0 where
  sent delivered read : MessageStatus

pub record Message : Type 0 where
  pub id : ObjectId
  pub conversation_id : ObjectId
  pub sender_id : ObjectId
  pub text : Text
  pub status : MessageStatus
  pub created_at : ℕ
  pub updated_at : ℕ

pub record Db : Type 0 where
  pub users : List User
  pub conversations : List Conversation
  pub messages : List Message

abbrev pub is_sent : MessageStatus → Bool
is_sent sent = true
is_sent _ = false

abbrev pub is_read : MessageStatus → Bool
is_read read = true
is_read _ = false

-- The order in which a message's status advances.
abbrev pub rank : MessageStatus → ℕ
rank sent = 0
rank delivered = 1
rank read = 2

abbrev pub is_one_to_one : ConversationType → Bool
is_one_to_one one_to_one = true
is_one_to_one group = false

abbrev pub includes : ObjectId → List ObjectId → Bool
includes id ids = any (λ other. other == id) ids

-- The schema of `Message.text`: trimmed, required, at most 5000 code units.
unfoldable pub message_schema_text : Text → Result Text
message_schema_text text =
    let trimmed = trim text in
    if is_empty trimmed || ltb 5000 (length trimmed) then err validation_error else ok trimmed
