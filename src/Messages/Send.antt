-- ===== src/Messages/Send.antt =====
-- createMessage of src/services/message.service.ts.
use react_websocket_chat.Prelude.{
  ◌+◌, String, ◌≡◌, refl, ◌∙◌, true, false, ◌&&◌, not, map, some, arith, find, find-true, count,
  ◌==◌, if◌then◌else◌, Option-cases, inl, inr,
}
use react_websocket_chat.Sanitize.{Text}
use react_websocket_chat.Exec.{ok, Result-cases}
use react_websocket_chat.Model.{ObjectId, Conversation, Message, sent, Db, message_schema_text}
use react_websocket_chat.Mongo.{Mongo}
use react_websocket_chat.Mongo.Laws.{count-create}
use react_websocket_chat.Conversations.{Stamp, is_member_of, find_membership}
use react_websocket_chat.Conversations.Membership.{is_ok, find_membership_lem}
use react_websocket_chat.Conversations.Unread.{is_unread_in}
use react_websocket_chat.Messages.{SendMessageInput, populate_sender, create_message}

-- The message that the service makes.
abbrev pub sent_message : Stamp → ObjectId → ObjectId → Text → Message
sent_message stamp cid uid text = record {
  id = stamp.new_id;
  conversation_id = cid;
  sender_id = uid;
  text = text;
  status = sent;
  created_at = stamp.now;
  updated_at = stamp.now;
}

-- The conversation after a message was sent to it.
abbrev pub bumped : Stamp → ObjectId → Conversation → Conversation
bumped stamp cid c =
    if c.id == cid then record c { last_message = some stamp.new_id; updated_at = stamp.now } else c

abbrev pub after_send : Mongo → Stamp → Message → Db → Db
after_send m stamp msg db = record {
  users = db.users;
  conversations = map (bumped stamp msg.conversation_id) db.conversations;
  messages = m.messages.create msg db.messages;
}

-- The request's ids parse, and some conversation has this id and the sender as a member.
pub record SendRequest (m : Mongo) (sender_id : String) (input : SendMessageInput) (db : Db)
    : Type 0 where
  pub cid : ObjectId
  pub uid : ObjectId
  pub conversation : Conversation
  pub text : Text
  pub parsed_conversation : m.parse input.conversation_id ≡ some cid
  pub parsed_sender : m.parse sender_id ≡ some uid
  pub found : find (is_member_of cid uid) db.conversations ≡ some conversation
  pub stored : message_schema_text input.text ≡ ok text

pub is_member_of-id :
    (cid uid : ObjectId) (c : Conversation) → is_member_of cid uid c ≡ true → c.id ≡ cid
unfolding is_member_of
is_member_of-id cid uid c h = ground arith

module _ (m : Mongo) (stamp : Stamp) (sender_id : String) (input : SendMessageInput) (db : Db) where
  pub create_message_lem :
      (r : SendRequest m sender_id input db)
      → create_message m stamp sender_id input db ≡ (
          let msg = sent_message stamp r.cid r.uid r.text in
          let db' = after_send m stamp msg db in (ok (populate_sender m msg db'), db'))
  unfolding create_message
  create_message_lem r =
      let same : r.conversation.id ≡ r.cid =
        is_member_of-id r.cid r.uid r.conversation
          (find-true (is_member_of r.cid r.uid) db.conversations r.conversation r.found) in
      rw
        (
          find_membership_lem m input.conversation_id sender_id db r.parsed_conversation
              r.parsed_sender,
          r.found,
          r.parsed_conversation,
          r.parsed_sender,
          r.stored,
          same,
          m.conversations.update_lem (λ c. c.id == r.cid)
              (λ c. record c { last_message = some stamp.new_id; updated_at = stamp.now })
              db.conversations,
        )
        refl

  pub send_request :
      is_ok (create_message m stamp sender_id input db).0 ≡ true → SendRequest m sender_id input db
  send_request h = elim (Option-cases (m.parse input.conversation_id)) [
    | inl unparsed ↦ absurd (unfold create_message find_membership in ground arith)
    | inr (cid, parsed_c) ↦ elim (Option-cases (m.parse sender_id)) [
      | inl unparsed ↦ absurd (unfold create_message find_membership in ground arith)
      | inr (uid, parsed_u) ↦
          let member = find_membership_lem m input.conversation_id sender_id db parsed_c parsed_u in
          elim (Option-cases (find (is_member_of cid uid) db.conversations)) [
            | inl missing ↦ absurd (unfold create_message in ground (arith, member))
            | inr (conversation, found) ↦ elim (Result-cases (message_schema_text input.text)) [
              | inl (e, refused) ↦ absurd (unfold create_message in ground (arith, member))
              | inr (text, stored) ↦ record {
                cid = cid;
                uid = uid;
                conversation = conversation;
                text = text;
                parsed_conversation = parsed_c;
                parsed_sender = parsed_u;
                found = found;
                stored = stored;
              }
            ]
          ]
    ]
  ]

  create_message_fails :
      is_ok (create_message m stamp sender_id input db).0 ≡ false
      → (create_message m stamp sender_id input db).1 ≡ db
  unfolding create_message
  create_message_fails h = ground arith

-- A send that succeeds is for a stored conversation that has the sender as a member, and for a text
-- that the schema takes. It stores one message, `sent`, with the trimmed text, points the
-- conversation at it, and changes nothing else.
pub create_message-sends :
    (m : Mongo) (stamp : Stamp) (sender_id : String) (input : SendMessageInput) (db : Db)
    → is_ok (create_message m stamp sender_id input db).0 ≡ true
    → (r : SendRequest m sender_id input db) × (create_message m stamp sender_id input db ≡ (
        let msg = sent_message stamp r.cid r.uid r.text in
        let db' = after_send m stamp msg db in (ok (populate_sender m msg db'), db')))
create_message-sends m stamp sender_id input db h =
    let r = send_request m stamp sender_id input db h in
    (r, create_message_lem m stamp sender_id input db r)

-- A send that fails leaves the database as it was.
pub create_message_atomic :
    (m : Mongo) (stamp : Stamp) (sender_id : String) (input : SendMessageInput) (db : Db)
    → is_ok (create_message m stamp sender_id input db).0 ≡ false
    → (create_message m stamp sender_id input db).1 ≡ db
create_message_atomic = create_message_fails

-- After a send the unread count of its conversation is one higher for everybody but the sender, and
-- all other unread counts are as before.
pub unread-create_message :
    (m : Mongo) (stamp : Stamp) (sender_id : String) (input : SendMessageInput) (db : Db)
    (cid viewer : ObjectId)
    → is_ok (create_message m stamp sender_id input db).0 ≡ true
    → (c : ObjectId) × (sender : ObjectId) × (m.parse input.conversation_id ≡ some c)
      × (m.parse sender_id ≡ some sender)
      × (count (is_unread_in cid viewer) (create_message m stamp sender_id input db).1.messages
          ≡ (if c == cid && not (sender == viewer) then 1 else 0)
            + count (is_unread_in cid viewer) db.messages)
unread-create_message m stamp sender_id input db cid viewer h =
    let (r, e) = create_message-sends m stamp sender_id input db h in
    let msg : Message = sent_message stamp r.cid r.uid r.text in
    (
      r.cid,
      r.uid,
      r.parsed_conversation,
      r.parsed_sender,
      rw e (count-create m.messages (is_unread_in cid viewer) msg db.messages ∙ ground arith),
    )
