-- ===== src/Messages.antt =====
-- src/services/message.service.ts.
pub mod Send
pub mod Marked
pub mod Read
pub mod Marks
pub mod Advance
pub mod Status
pub mod Log
pub mod Interleaving
pub mod Sending
use mathlib.Core.Option
use react_websocket_chat.Prelude.{
  ℕ, String, Bool, ◌&&◌, not, List, map, Option, none, some, leb, ltb, length, ◌==◌, if◌then◌else◌,
}
use react_websocket_chat.Sanitize.{Text}
use react_websocket_chat.Exec.{
  app_error, Result, ok, err, and_then, Exec, pure, throw, query, gets, continue, ◌>>=◌, ◌>>◌,
}
use react_websocket_chat.Model.{
  ObjectId, User, Sender, MessageStatus, sent, delivered, read, Message, is_sent, is_read, Db,
  includes, message_schema_text,
}
use react_websocket_chat.Mongo.{Mongo, cast}
use react_websocket_chat.Conversations.{
  Stamp, find_membership, is_conversation_member, or_not_found, cast_all,
}

-- SendMessageInput, the parsed payload of `message:send`
pub record SendMessageInput : Type 0 where
  pub conversation_id : String
  pub text : Text

-- Message.create({ conversationId, senderId, text, status: 'sent' })
unfoldable pub create_document : Mongo → Stamp → ObjectId → ObjectId → Text → Exec Db Message
create_document m stamp cid uid text = query (λ _. message_schema_text text) >>= λ stored db.
    let msg : Message = record {
      id = stamp.new_id;
      conversation_id = cid;
      sender_id = uid;
      text = stored;
      status = sent;
      created_at = stamp.now;
      updated_at = stamp.now;
    } in
    (ok msg, record db { messages = m.messages.create msg db.messages })

-- conversation.lastMessage = message._id; await conversation.save(). A save writes the changed
-- fields of the document with this `_id`, and its `updatedAt`.
unfoldable pub save_last_message : Mongo → ℕ → ObjectId → ObjectId → Db → Db
save_last_message m now cid message_id db = record db {
  conversations =
      m.conversations.update (λ c. c.id == cid)
        (λ c. record c { last_message = some message_id; updated_at = now }) db.conversations;
}

-- The fields of populate('senderId', 'username email'), and the id.
abbrev pub sender_of : User → Sender
sender_of u = record { id = u.id; username = u.username; email = u.email }

-- A message with its sender populated; `none` where no such user exists.
pub record PopulatedMessage : Type 0 where
  pub message : Message
  pub sender : Option Sender

unfoldable pub populate_sender : Mongo → Message → Db → PopulatedMessage
populate_sender m msg db = record {
  message = msg;
  sender = Option.map sender_of (m.users.find_one (λ u. u.id == msg.sender_id) db.users);
}

unfoldable pub create_message : Mongo → Stamp → String → SendMessageInput → Exec Db PopulatedMessage
unfolding create_document save_last_message
create_message m stamp sender_id input = do
  found ← query (find_membership m input.conversation_id sender_id)
  conversation ← query (λ _. or_not_found "Conversation not found" found)
  cid ← query (λ _. cast m input.conversation_id)
  uid ← query (λ _. cast m sender_id)
  msg ← create_document m stamp cid uid input.text
  (λ db. (ok tt, save_last_message m stamp.now conversation.id msg.id db))
  gets (populate_sender m msg)

pub record StatusUpdateResult : Type 0 where
  pub message : Message
  pub conversation_id : String

-- message.status = status; await message.save()
unfoldable pub save_status : Mongo → ℕ → ObjectId → MessageStatus → Db → Db
save_status m now message_id status db = record db {
  messages =
      m.messages.update (λ msg. msg.id == message_id)
        (λ msg. record msg { status = status; updated_at = now }) db.messages;
}

-- Message.findById(messageId)
unfoldable pub find_message : Mongo → String → Db → Result (Option Message)
find_message m message_id db =
    and_then (cast m message_id) λ id. ok (m.messages.find_one (λ msg. msg.id == id) db.messages)

-- `!message || !(await isConversationMember(…))` is the 404 of both.
unfoldable pub find_visible_message : Mongo → String → String → Db → Result Message
unfolding find_message
find_visible_message m message_id user_id db = and_then (find_message m message_id db) λ found.
    and_then (or_not_found "Message not found" found) λ msg.
      and_then (is_conversation_member m (m.to_string msg.conversation_id) user_id db)
        λ member. or_not_found "Message not found" (if member then some msg else none)

-- The answer shows the document as it is after the save, if there was one.
unfoldable pub advance_to_delivered : Mongo → ℕ → Message → Exec Db StatusUpdateResult
unfolding save_status
advance_to_delivered m now msg db =
    let saved : Message = record msg { status = delivered; updated_at = now } in
    let conversation_id : String = m.to_string msg.conversation_id in
    if is_sent msg.status
    then (
      ok (record { message = saved; conversation_id = conversation_id }),
      save_status m now msg.id delivered db,
    )
    else (ok (record { message = msg; conversation_id = conversation_id }), db)

unfoldable pub mark_message_delivered : Mongo → ℕ → String → String → Exec Db StatusUpdateResult
mark_message_delivered m now message_id user_id =
    if m.is_valid message_id
    then query (find_visible_message m message_id user_id) >>= advance_to_delivered m now
    else throw (app_error (record { message = "Invalid message ID"; status_code = 400 }))

pub record ReadResult : Type 0 where
  pub conversation_id : String
  pub message_ids : List String

-- { conversationId, senderId: { $ne: userId }, status: { $ne: 'read' },
--   createdAt: { $lte: upTo } }
unfoldable pub is_unread_up_to : ObjectId → ObjectId → ℕ → Message → Bool
is_unread_up_to cid uid up_to msg =
    msg.conversation_id == cid
    && (not (msg.sender_id == uid) && (not (is_read msg.status) && leb msg.created_at up_to))

abbrev pub message_id_of : Message → ObjectId
message_id_of msg = msg.id

-- Message.findOne({ _id: upToMessageId, conversationId })
unfoldable pub find_in_conversation : Mongo → String → String → Db → Result (Option Message)
find_in_conversation m message_id conversation_id db = and_then (cast m message_id) λ id.
    and_then (cast m conversation_id) λ cid.
      ok (m.messages.find_one (λ msg. msg.id == id && msg.conversation_id == cid) db.messages)

-- The checks and the first two queries: the texts of the ids to update.
unfoldable pub find_unread : Mongo → String → String → String → Db → Result (List String)
unfolding find_in_conversation
find_unread m conversation_id up_to_message_id user_id db =
    and_then (is_conversation_member m conversation_id user_id db) λ member.
      and_then (or_not_found "Conversation not found" (if member then some tt else none)) λ _.
        and_then (find_in_conversation m up_to_message_id conversation_id db) λ found.
          and_then (or_not_found "Message not found" found) λ up_to.
            and_then (cast m conversation_id) λ cid. and_then (cast m user_id) λ uid. ok (
              map (λ msg. m.to_string (message_id_of msg))
                (m.messages.find_many (is_unread_up_to cid uid up_to.created_at) db.messages))

-- Message.updateMany({ _id: { $in: messageIds } }, { $set: { status: 'read' } })
unfoldable pub update_read : Mongo → ℕ → List String → Exec Db (Unit {0})
unfolding cast_all
update_read m now message_ids db =
    continue (cast_all m message_ids)
      (λ ids db'. (
        ok tt,
        record db' {
          messages =
              m.messages.update (λ msg. includes msg.id ids)
                (λ msg. record msg { status = read; updated_at = now }) db'.messages;
        },
      ))
      db

unfoldable pub mark_messages_read : Mongo → ℕ → String → String → String → Exec Db ReadResult
unfolding find_unread update_read
mark_messages_read m now conversation_id up_to_message_id user_id =
    if m.is_valid conversation_id && m.is_valid up_to_message_id
    then (query (find_unread m conversation_id up_to_message_id user_id) >>= λ message_ids.
        let result : ReadResult = record {
          conversation_id = conversation_id;
          message_ids = message_ids;
        } in
        if ltb 0 (length message_ids)
        then update_read m now message_ids >> pure result
        else pure result)
    else throw (app_error (record { message = "Invalid ID"; status_code = 400 }))
