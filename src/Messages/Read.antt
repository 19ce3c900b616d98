-- ===== src/Messages/Read.antt =====
-- markMessagesRead of src/services/message.service.ts: which messages it marks, and that a repeated
-- call marks none.
use mathlib.Core.Option
use react_websocket_chat.Prelude.{
  ℕ, String, ◌≡◌, refl, ap, ◌∙◌, true, ◌&&◌, List, [], ◌∷◌, map, some, arith, find, is_some,
  find-map, count, filter_of_count-zero, ltb, length, ◌==◌, if◌then◌else◌, Option-cases, inl, inr,
}
use react_websocket_chat.Exec.{Result, ok, pure, ◌>>◌}
use react_websocket_chat.Model.{ObjectId, Message, read, Db, includes}
use react_websocket_chat.Mongo.{Mongo}
use react_websocket_chat.Conversations.{is_conversation_member}
use react_websocket_chat.Conversations.Membership.{
  cast_all-map, is_ok, is_conversation_member-true_iff, is_conversation_member-messages,
}
use react_websocket_chat.Messages.{
  ReadResult, is_unread_up_to, message_id_of, update_read, mark_messages_read,
}
use react_websocket_chat.Messages.Marked.{marked, unread_ids, map-marked_nil, none_left}

-- The request names a conversation with the caller as a member, and one of its messages.
pub record ReadRequest (m : Mongo) (conversation_id up_to_message_id user_id : String) (db : Db)
    : Type 0 where
  pub cid : ObjectId
  pub uid : ObjectId
  pub id : ObjectId
  pub up_to : Message
  pub valid_conversation : m.is_valid conversation_id ≡ true
  pub valid_message : m.is_valid up_to_message_id ≡ true
  pub parsed_conversation : m.parse conversation_id ≡ some cid
  pub parsed_message : m.parse up_to_message_id ≡ some id
  pub parsed_user : m.parse user_id ≡ some uid
  pub member : is_conversation_member m conversation_id user_id db ≡ ok true
  pub found : find (λ msg. msg.id == id && msg.conversation_id == cid) db.messages ≡ some up_to

texts_of :
    (m : Mongo) (msgs : List Message)
    → map (λ msg. m.to_string (message_id_of msg)) msgs ≡ map m.to_string (map message_id_of msgs)
texts_of m [] = refl
texts_of m (x ∷ msgs) = rw (texts_of m msgs)

-- What the function answers once it has the ids, and what it leaves.
abbrev pub answer : Mongo → ℕ → String → List ObjectId → Db → Result ReadResult × Db
answer m now conversation_id ids db = (
  ok (record { conversation_id = conversation_id; message_ids = map m.to_string ids }),
  record db { messages = map (marked now ids) db.messages },
)

update_read_lem :
    (m : Mongo) (now : ℕ) (ids : List ObjectId) (db : Db)
    → update_read m now (map m.to_string ids) db
      ≡ (ok tt, record db { messages = map (marked now ids) db.messages })
unfolding update_read
update_read_lem m now ids db =
    rw
      (
        cast_all-map m ids,
        m.messages.update_lem (λ msg. includes msg.id ids)
            (λ msg. record msg { status = read; updated_at = now }) db.messages,
      )
      refl

finish :
    (m : Mongo) (now : ℕ) (conversation_id : String) (ids : List ObjectId) (db : Db)
    → (if ltb 0 (length (map m.to_string ids))
          then update_read m now (map m.to_string ids)
            >> pure
                (record { conversation_id = conversation_id; message_ids = map m.to_string ids })
          else pure
              (record { conversation_id = conversation_id; message_ids = map m.to_string ids }))
        db
      ≡ answer m now conversation_id ids db
finish m now conversation_id [] db = rw (map-marked_nil now db.messages) refl
finish m now conversation_id (id ∷ ids) db = ground (arith, update_read_lem m now (id ∷ ids) db)

module _ (m : Mongo) (now : ℕ) (conversation_id up_to_message_id user_id : String) (db : Db) where
  pub mark_messages_read_lem :
      (r : ReadRequest m conversation_id up_to_message_id user_id db)
      → mark_messages_read m now conversation_id up_to_message_id user_id db
        ≡ answer m now conversation_id (unread_ids r.cid r.uid r.up_to.created_at db.messages) db
  unfolding mark_messages_read
  mark_messages_read_lem r =
      rw
        (
          r.valid_conversation,
          r.valid_message,
          r.member,
          r.parsed_message,
          r.parsed_conversation,
          r.parsed_user,
          m.messages.find_one_lem,
          r.found,
          m.messages.find_many_lem,
          texts_of m,
        )
        (finish m now conversation_id (unread_ids r.cid r.uid r.up_to.created_at db.messages) db)

  pub read_request :
      is_ok (mark_messages_read m now conversation_id up_to_message_id user_id db).0 ≡ true
      → ReadRequest m conversation_id up_to_message_id user_id db
  unfolding mark_messages_read
  read_request h =
      let valid : (m.is_valid conversation_id ≡ true) × (m.is_valid up_to_message_id ≡ true) =
        ground arith in
      let member : is_conversation_member m conversation_id user_id db ≡ ok true = ground arith in
      let (cid, uid, _, parsed_c, parsed_u, _) =
        (is_conversation_member-true_iff m conversation_id user_id db).0 member in
      elim (Option-cases (m.parse up_to_message_id)) [
        | inl unparsed ↦ cc (m.valid_parses up_to_message_id valid.1, ap is_some unparsed)
        | inr (id, parsed_id) ↦
            elim (Option-cases
              (find (λ msg. msg.id == id && msg.conversation_id == cid) db.messages)) [
                | inl missing ↦ absurd (
                    ground (
                      arith,
                      m.messages.find_one_lem (λ msg. msg.id == id && msg.conversation_id == cid)
                          db.messages,
                    ))
                | inr (up_to, found) ↦ record {
                  cid = cid;
                  uid = uid;
                  id = id;
                  up_to = up_to;
                  valid_conversation = valid.0;
                  valid_message = valid.1;
                  parsed_conversation = parsed_c;
                  parsed_message = parsed_id;
                  parsed_user = parsed_u;
                  member = member;
                  found = found;
                }
              ]
      ]

created-marked :
    (now : ℕ) (ids : List ObjectId) (msg : Message)
    → (marked now ids msg).created_at ≡ msg.created_at
created-marked now ids msg = ground arith

find-marked :
    (now : ℕ) (ids : List ObjectId) (id cid : ObjectId) (msgs : List Message)
    → find (λ msg. msg.id == id && msg.conversation_id == cid) (map (marked now ids) msgs)
      ≡ Option.map (marked now ids) (find (λ msg. msg.id == id && msg.conversation_id == cid) msgs)
find-marked now ids id cid =
    find-map (λ msg. msg.id == id && msg.conversation_id == cid) (marked now ids)
      (λ msg. ground arith)

-- Reading answers and marks exactly the messages of the conversation that are not the caller's, not
-- yet read and not newer than the given message; no such message is left; the rest of the database
-- and every other message stay as they were.
pub mark_messages_read-marks :
    (m : Mongo) (now : ℕ) (conversation_id up_to_message_id user_id : String) (db : Db)
    → is_ok (mark_messages_read m now conversation_id up_to_message_id user_id db).0 ≡ true
    → (r : ReadRequest m conversation_id up_to_message_id user_id db) × (mark_messages_read m now
          conversation_id up_to_message_id user_id db
        ≡ answer m now conversation_id (unread_ids r.cid r.uid r.up_to.created_at db.messages) db)
      × (count
            (is_unread_up_to r.cid r.uid r.up_to.created_at)
            (mark_messages_read m now conversation_id up_to_message_id user_id db).1.messages
          ≡ 0)
mark_messages_read-marks m now conversation_id up_to_message_id user_id db h =
    let r = read_request m now conversation_id up_to_message_id user_id db h in
    let e = mark_messages_read_lem m now conversation_id up_to_message_id user_id db r in
    (r, e, rw e (none_left now r.cid r.uid r.up_to.created_at db.messages))

-- Reading again, at any later time, marks nothing, answers no message ids and leaves the database
-- as the first call left it.
pub mark_messages_read_again :
    (m : Mongo) (now later : ℕ) (conversation_id up_to_message_id user_id : String) (db : Db)
    → is_ok (mark_messages_read m now conversation_id up_to_message_id user_id db).0 ≡ true
    → let db' = (mark_messages_read m now conversation_id up_to_message_id user_id db).1 in
      mark_messages_read m later conversation_id up_to_message_id user_id db'
      ≡ (ok (record { conversation_id = conversation_id; message_ids = [] }), db')
mark_messages_read_again m now later conversation_id up_to_message_id user_id db h =
    let r = read_request m now conversation_id up_to_message_id user_id db h in
    let ids : List ObjectId = unread_ids r.cid r.uid r.up_to.created_at db.messages in
    let e = mark_messages_read_lem m now conversation_id up_to_message_id user_id db r in
    let db' : Db = record db { messages = map (marked now ids) db.messages } in
    let again : ReadRequest m conversation_id up_to_message_id user_id db' = record {
      cid = r.cid;
      uid = r.uid;
      id = r.id;
      up_to = marked now ids r.up_to;
      valid_conversation = r.valid_conversation;
      valid_message = r.valid_message;
      parsed_conversation = r.parsed_conversation;
      parsed_message = r.parsed_message;
      parsed_user = r.parsed_user;
      member =
          is_conversation_member-messages m conversation_id user_id db
            (map (marked now ids) db.messages)
          ∙ r.member;
      found = find-marked now ids r.id r.cid db.messages ∙ ap (Option.map (marked now ids)) r.found;
    } in
    let nil : unread_ids r.cid r.uid (marked now ids r.up_to).created_at
          (map (marked now ids) db.messages)
        ≡ [] =
      rw (created-marked now ids r.up_to) (
        ap (map message_id_of) (
          filter_of_count-zero (is_unread_up_to r.cid r.uid r.up_to.created_at)
            (map (marked now ids) db.messages)
            (none_left now r.cid r.uid r.up_to.created_at db.messages))) in
    rw e (
      mark_messages_read_lem m later conversation_id up_to_message_id user_id db' again
      ∙ rw (nil, map-marked_nil later (map (marked now ids) db.messages)) refl)
