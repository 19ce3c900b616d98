-- ===== src/Messages/Sending/Pointers.antt =====
-- What interleaved sends write to `lastMessage` (src/services/message.service.ts).
use react_websocket_chat.Prelude.{
  ℕ, String, ◌≡◌, refl, ap, sym, ◌∙◌, true, List, ◌∷◌, ◌++◌, some, All, All-append, All-split,
  Bool-cases, inl, inr, ◌==◌, find, find-true,
}
use react_websocket_chat.Sanitize.{Text}
use react_websocket_chat.Exec.{ok, continue-ok, ok-injective}
use react_websocket_chat.Model.{
  ObjectId, Conversation, Message, sent, is_sent, Db, message_schema_text,
}
use react_websocket_chat.Mongo.{Mongo}
use react_websocket_chat.Conversations.{Stamp, is_member_of, find_membership}
use react_websocket_chat.Conversations.Membership.{find_membership_lem}
use react_websocket_chat.Messages.{
  update_read, create_document, save_last_message, save_status, advance_to_delivered,
}
use react_websocket_chat.Messages.Send.{is_member_of-id}
use react_websocket_chat.Messages.Interleaving.{
  Service, Step, save, update_many, find_by_id, check_member, check_reader, find_up_to,
  find_to_update, drop, update_read-db, Step-Keeps,
}
use react_websocket_chat.Messages.Sending.{
  Sending, SendStep, find_conversation, create, refuse, save_conversation, receipt, SendReach, idle,
  further, has_message, NamesOwn,
}
use react_websocket_chat.Messages.Sending.Stays.{
  Stays, create-Stays, has_message-create, Keeps-Stays, Stays-NamesOwn, bumped-NamesOwn,
  stay_written,
}

create_document_lem :
    (m : Mongo) (stamp : Stamp) (cid uid : ObjectId) (text : Text) (db db' : Db) (msg : Message)
    → create_document m stamp cid uid text db ≡ (ok msg, db')
    → (msg.conversation_id ≡ cid)
      × (db'.conversations ≡ db.conversations)
      × (db'.messages ≡ m.messages.create msg db.messages)
unfolding create_document
create_document_lem m stamp cid uid text db db' msg h =
    let (stored, taken, made) = continue-ok (message_schema_text text) _ db msg db' h in
    let doc : Message = record {
      id = stamp.new_id;
      conversation_id = cid;
      sender_id = uid;
      text = stored;
      status = sent;
      created_at = stamp.now;
      updated_at = stamp.now;
    } in
    let same : doc ≡ msg = ok-injective doc msg (ap (λ r. r.0) made) in
    let same_db : record db { messages = m.messages.create doc db.messages } ≡ db' =
      ap (λ r. r.1) made in
    (
      ap (λ x. x.conversation_id) (sym same),
      ap (λ d. d.conversations) (sym same_db),
      ap (λ d. d.messages) (sym same_db) ∙ ap (λ x. m.messages.create x db.messages) same,
    )

advance_to_delivered-same :
    (m : Mongo) (now : ℕ) (msg : Message) (db : Db)
    → (advance_to_delivered m now msg db).1.conversations ≡ db.conversations
unfolding advance_to_delivered save_status
advance_to_delivered-same m now msg db = elim (Bool-cases (is_sent msg.status)) [
  | inl fresh ↦ rw fresh refl
  | inr done ↦ rw done refl
]

update_read-same :
    (m : Mongo) (now : ℕ) (ids : List String) (db : Db)
    → (update_read m now ids db).1.conversations ≡ db.conversations
update_read-same m now ids db = elim (update_read-db m now ids db) [
  | inl same ↦ rw same refl
  | inr (_, e) ↦ rw e refl
]

receipt-same : {m : Mongo} {s t : Service} → Step m s t → t.db.conversations ≡ s.db.conversations
receipt-same {m = m} (save s now before after msg split) = advance_to_delivered-same m now msg s.db
receipt-same {m = m} (update_many s now before after ids split some_ids) =
    update_read-same m now ids s.db
receipt-same (find_by_id s message_id user_id msg valid found) = refl
receipt-same (check_member s before after user_id msg split member) = refl
receipt-same (check_reader s conversation_id up_to user_id valid valid' member) = refl
receipt-same (find_up_to s before after conversation_id up_to_id user_id up_to split found) = refl
receipt-same (find_to_update s before after conversation_id user_id up_to cid uid split pc pu) =
    refl
receipt-same (drop s before after r split) = refl

-- The pointers of the database, and what the sends under way will write.
record Sound (s : Sending) : Type 0 where
  pointers : NamesOwn s.service.db.messages s.service.db.conversations
  ids : All (λ f. f.conversation.id ≡ f.conversation_id) s.found
  written :
      All (λ w. has_message w.conversation.id w.message.id s.service.db.messages ≡ true) s.created

without :
    {A : Type 0} (P : A → Type 0) (before after : List A) (x : A)
    → All P (before ++ x ∷ after)
    → P x × All P (before ++ after)
without P before after x h =
    let (hb, (hx, ha)) = All-split P before (x ∷ after) h in (hx, All-append P before after hb ha)

-- What keeps the messages and the conversations keeps the pointers.
Sound-grown :
    (s : Sending) (service : Service)
    → Stays s.service.db.messages service.db.messages
    → service.db.conversations ≡ s.service.db.conversations
    → Sound s
    → Sound (record s { service = service })
Sound-grown s service stay same h = record {
  pointers = rw same (
      Stays-NamesOwn s.service.db.messages service.db.messages s.service.db.conversations stay
        h.pointers);
  ids = h.ids;
  written = stay_written s.service.db.messages service.db.messages s.created stay h.written;
}

found-id :
    (m : Mongo) (conversation_id sender_id : String) (cid uid : ObjectId) (c : Conversation)
    (db : Db)
    → m.parse conversation_id ≡ some cid
    → m.parse sender_id ≡ some uid
    → find_membership m conversation_id sender_id db ≡ ok (some c)
    → c.id ≡ cid
found-id m conversation_id sender_id cid uid c db parsed_c parsed_u h =
    let e : ok (find (is_member_of cid uid) db.conversations) ≡ ok (some c) =
      sym (find_membership_lem m conversation_id sender_id db parsed_c parsed_u) ∙ h in
    is_member_of-id cid uid c (
      find-true (is_member_of cid uid) db.conversations c
        (ok-injective (find (is_member_of cid uid) db.conversations) (some c) e))

SendStep-Sound : {m : Mongo} {s t : Sending} → SendStep m s t → Sound s → Sound t
unfolding save_last_message
SendStep-Sound {m = m} (find_conversation s conversation_id sender_id f parsed_c parsed_u found) h =
    record {
      pointers = h.pointers;
      ids = (
        found-id m conversation_id sender_id f.conversation_id f.sender_id f.conversation
            s.service.db parsed_c parsed_u found,
        h.ids,
      );
      written = h.written;
    }
SendStep-Sound {m = m} (create s stamp before after f msg db split made) h =
    let (own, same, stored) =
      create_document_lem m stamp f.conversation_id f.sender_id f.text s.service.db db msg made in
    let stay : Stays s.service.db.messages db.messages =
      rw stored (create-Stays m.messages msg s.service.db.messages) in
    let (id, ids) =
      without (λ g. g.conversation.id ≡ g.conversation_id) before after f (rw split at h.ids) in
    let kept = Sound-grown s (record s.service { db = db }) stay same h in
    record {
      pointers = kept.pointers;
      ids = ids;
      written = (
        rw (id, sym own, stored) (has_message-create m.messages msg s.service.db.messages),
        kept.written,
      );
    }
SendStep-Sound (refuse s stamp before after f e db split made) h = record {
  pointers = h.pointers;
  ids = (without (λ g. g.conversation.id ≡ g.conversation_id) before after f (rw split at h.ids)).1;
  written = h.written;
}
SendStep-Sound {m = m} (save_conversation s now before after w split) h =
    let msgs = s.service.db.messages in
    let (own, written) =
      without (λ x. has_message x.conversation.id x.message.id msgs ≡ true) before after w
        (rw split at h.written) in
    let stamp : Stamp = record { new_id = w.message.id; now = now } in
    record {
      pointers =
          rw
            (m.conversations.update_lem (λ c. c.id == w.conversation.id)
              (λ c. record c { last_message = some w.message.id; updated_at = now })
              s.service.db.conversations)
            (bumped-NamesOwn stamp w.conversation.id msgs s.service.db.conversations own
              h.pointers);
      ids = h.ids;
      written = written;
    }
SendStep-Sound (receipt s service step) h =
    Sound-grown s service (Keeps-Stays s.service.db.messages service.db.messages (Step-Keeps step))
      (receipt-same step) h

SendReach-Sound :
    {m : Mongo} {db : Db} {s : Sending}
    → SendReach m db s
    → NamesOwn db.messages db.conversations
    → Sound s
SendReach-Sound idle h = record { pointers = h; ids = tt; written = tt }
SendReach-Sound (further r step) h = SendStep-Sound step (SendReach-Sound r h)

-- However the awaits of sends and of receipts interleave, each `lastMessage` names a stored message
-- of its own conversation, if each did before.
pub SendReach-NamesOwn :
    {m : Mongo} {db : Db} {s : Sending}
    → SendReach m db s
    → NamesOwn db.messages db.conversations
    → NamesOwn s.service.db.messages s.service.db.conversations
SendReach-NamesOwn r h = (SendReach-Sound r h).pointers
