-- ===== src/Messages/Sending/Alone.antt =====
-- createMessage of src/services/message.service.ts, with nothing between its awaits.
use react_websocket_chat.Prelude.{
  String, ◌≡◌, refl, ap, sym, ◌∙◌, true, [], ◌∷◌, some, find-true, ◌==◌,
}
use react_websocket_chat.Exec.{ok}
use react_websocket_chat.Model.{Message, Db}
use react_websocket_chat.Mongo.{Mongo}
use react_websocket_chat.Conversations.{Stamp, is_member_of}
use react_websocket_chat.Conversations.Membership.{is_ok, find_membership_lem}
use react_websocket_chat.Messages.{
  SendMessageInput, create_document, save_last_message, create_message,
}
use react_websocket_chat.Messages.Send.{
  SendRequest, sent_message, after_send, send_request, create_message_lem, is_member_of-id,
}
use react_websocket_chat.Messages.Sending.{
  Found, Sending, SendReach, idle, further, find_conversation, create, save_conversation,
}

abbrev at_rest : Db → Sending
at_rest db = record { service = record { db = db; pending = [] }; found = []; created = [] }

-- A send that succeeds with nothing between its awaits is a run of the steps.
pub create_message-SendReach :
    (m : Mongo) (stamp : Stamp) (sender_id : String) (input : SendMessageInput) (db : Db)
    → is_ok (create_message m stamp sender_id input db).0 ≡ true
    → SendReach m db (at_rest (create_message m stamp sender_id input db).1)
unfolding create_document save_last_message
create_message-SendReach m stamp sender_id input db h =
    let r : SendRequest m sender_id input db = send_request m stamp sender_id input db h in
    let f : Found = record {
      conversation = r.conversation;
      conversation_id = r.cid;
      sender_id = r.uid;
      text = input.text;
    } in
    let msg : Message = sent_message stamp r.cid r.uid r.text in
    let db' : Db = record db { messages = m.messages.create msg db.messages } in
    let s : Sending = record (at_rest db) { found = f ∷ [] } in
    let t : Sending = record (at_rest db') {
      created = record { conversation = r.conversation; message = msg } ∷ [];
    } in
    let made : create_document m stamp r.cid r.uid input.text db ≡ (ok msg, db') =
      rw r.stored refl in
    let member =
      find_membership_lem m input.conversation_id sender_id db r.parsed_conversation r.parsed_sender
      ∙ ap ok r.found in
    let same : r.conversation.id ≡ r.cid =
      is_member_of-id r.cid r.uid r.conversation
        (find-true (is_member_of r.cid r.uid) db.conversations r.conversation r.found) in
    let saved : save_last_message m stamp.now r.conversation.id msg.id db'
        ≡ after_send m stamp msg db =
      rw
        (
          same,
          m.conversations.update_lem (λ c. c.id == r.cid)
              (λ c. record c { last_message = some stamp.new_id; updated_at = stamp.now })
              db.conversations,
        )
        refl in
    let run : SendReach m db
        (at_rest (save_last_message m stamp.now r.conversation.id msg.id db')) =
      further
        (further
          (further idle (
            find_conversation (at_rest db) input.conversation_id sender_id f r.parsed_conversation
              r.parsed_sender member))
          (create s stamp [] [] f msg db' refl made))
        (save_conversation t stamp.now [] []
          (record { conversation = r.conversation; message = msg }) refl) in
    rw (create_message_lem m stamp sender_id input db r, sym saved) run
