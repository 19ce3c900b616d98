-- ===== src/Messages/Marks.antt =====
-- What markMessagesRead of src/services/message.service.ts does, told without the queries that it
-- makes.
use react_websocket_chat.Prelude.{
  ℕ, String, ◌≡◌, refl, ap, sym, ◌∙◌, Bool, true, false, not, List, [], ◌∷◌, ◌++◌, map, some, arith,
  ◌&&◌, find, filter, count, any, ltb, Bool-cases, inl, inr, ◌==◌, if◌then◌else◌,
}
use react_websocket_chat.Exec.{Result, ok}
use react_websocket_chat.Model.{ObjectId, Conversation, Message, read, rank, Db, includes}
use react_websocket_chat.Mongo.{Mongo}
use react_websocket_chat.Conversations.{is_member_of, is_conversation_member}
use react_websocket_chat.Conversations.Membership.{is_ok, is_conversation_member-true_iff}
use react_websocket_chat.Messages.{ReadResult, is_unread_up_to, message_id_of, mark_messages_read}
use react_websocket_chat.Messages.Marked.{unread_ids}
use react_websocket_chat.Messages.Read.{mark_messages_read-marks}

-- Some stored conversation has this id, and this user among its members.
abbrev pub HasMember : ObjectId → ObjectId → List Conversation → Type 0
HasMember cid uid cs =
    (before : List Conversation) × (c : Conversation) × (after : List Conversation) × (cs
      ≡ before ++ c ∷ after)
    × (c.id ≡ cid)
    × (includes uid c.members ≡ true)

pub any-HasMember :
    (cid uid : ObjectId) (cs : List Conversation)
    → any (is_member_of cid uid) cs ≡ true
    → HasMember cid uid cs
unfolding is_member_of
any-HasMember cid uid [] h = absurd (ground arith)
any-HasMember cid uid (c ∷ cs) h = elim (Bool-cases (is_member_of cid uid c)) [
  | inl hit ↦ ([], c, cs, refl, ground (arith, hit), ground (arith, hit))
  | inr miss ↦
      let (before, d, after, e, id, member) = any-HasMember cid uid cs (ground (arith, miss, h)) in
      (c ∷ before, d, after, ap (λ ds. c ∷ ds) e, id, member)
]

pub is_conversation_member-HasMember :
    (m : Mongo) (conversation_id user_id : String) (cid uid : ObjectId) (db : Db)
    → m.parse conversation_id ≡ some cid
    → m.parse user_id ≡ some uid
    → is_conversation_member m conversation_id user_id db ≡ ok true
    → HasMember cid uid db.conversations
is_conversation_member-HasMember m conversation_id user_id cid uid db parsed_c parsed_u h =
    let (c, u, _, pc, pu, listed) =
      (is_conversation_member-true_iff m conversation_id user_id db).0 h in
    let same_c : c ≡ cid = ground (arith, pc, parsed_c) in
    let same_u : u ≡ uid = ground (arith, pu, parsed_u) in
    any-HasMember cid uid db.conversations (rw (sym same_c, sym same_u) listed)

-- Whether a reader who has seen the conversation up to `up_to` has seen a message that somebody else
-- wrote there, and that is not read yet.
abbrev pub is_newly_read : ObjectId → ObjectId → Message → Message → Bool
is_newly_read cid uid up_to msg =
    if msg.conversation_id == cid
    then if msg.sender_id == uid
      then false
      else ltb (rank msg.status) 2 && not (ltb up_to.created_at msg.created_at)
    else false

is_unread_up_to_lem :
    (cid uid : ObjectId) (up_to msg : Message)
    → is_unread_up_to cid uid up_to.created_at msg ≡ is_newly_read cid uid up_to msg
unfolding is_unread_up_to
is_unread_up_to_lem cid uid up_to msg = ground arith

filter-same :
    (p q : Message → Bool) (msgs : List Message)
    → ((x : Message) → p x ≡ q x)
    → filter p msgs ≡ filter q msgs
filter-same p q [] h = refl
filter-same p q (x ∷ msgs) h = rw (h x, filter-same p q msgs h) refl

-- The reader is a member of the conversation, `up_to` is one of its messages, and the messages that
-- are newly read by then, and only they, are answered and become `read`.
pub record Marks (m : Mongo) (now : ℕ) (conversation_id up_to_message_id user_id : String) (db : Db)
    (result : Result ReadResult) (db' : Db) : Type 0 where
  pub cid : ObjectId
  pub uid : ObjectId
  pub id : ObjectId
  pub up_to : Message
  pub ids : List ObjectId
  pub parsed_conversation : m.parse conversation_id ≡ some cid
  pub parsed_message : m.parse up_to_message_id ≡ some id
  pub parsed_user : m.parse user_id ≡ some uid
  pub member : HasMember cid uid db.conversations
  pub found : find (λ msg. msg.id == id && msg.conversation_id == cid) db.messages ≡ some up_to
  pub newly_read : ids ≡ map (λ msg. msg.id) (filter (is_newly_read cid uid up_to) db.messages)
  pub answered :
      result ≡ ok (record { conversation_id = conversation_id; message_ids = map m.to_string ids })
  pub stored : db' ≡ record db {
    messages =
        map
          (λ msg.
            if includes msg.id ids then record msg { status = read; updated_at = now } else msg)
          db.messages;
  }
  pub none_left : count (is_newly_read cid uid up_to) db'.messages ≡ 0

count-same :
    (p q : Message → Bool) (msgs : List Message)
    → ((x : Message) → p x ≡ q x)
    → count p msgs ≡ count q msgs
count-same p q [] h = refl
count-same p q (x ∷ msgs) h = ground (arith, h x, count-same p q msgs h)

-- Reading answers and marks exactly the messages of the conversation that are not the caller's, not
-- yet read and not newer than the given message, which is one of the conversation, and the caller is
-- a member of it; no such message is left; the rest of the database and every other message stay as
-- they were.
pub mark_messages_read-Marks :
    (m : Mongo) (now : ℕ) (conversation_id up_to_message_id user_id : String) (db : Db)
    → is_ok (mark_messages_read m now conversation_id up_to_message_id user_id db).0 ≡ true
    → let (result, db') = mark_messages_read m now conversation_id up_to_message_id user_id db in
      Marks m now conversation_id up_to_message_id user_id db result db'
mark_messages_read-Marks m now conversation_id up_to_message_id user_id db h =
    let (r, e, none) =
      mark_messages_read-marks m now conversation_id up_to_message_id user_id db h in
    let same = is_unread_up_to_lem r.cid r.uid r.up_to in
    let q = is_unread_up_to r.cid r.uid r.up_to.created_at in
    let p = is_newly_read r.cid r.uid r.up_to in
    let db' = (mark_messages_read m now conversation_id up_to_message_id user_id db).1 in
    record {
      cid = r.cid;
      uid = r.uid;
      id = r.id;
      up_to = r.up_to;
      ids = unread_ids r.cid r.uid r.up_to.created_at db.messages;
      parsed_conversation = r.parsed_conversation;
      parsed_message = r.parsed_message;
      parsed_user = r.parsed_user;
      member =
          is_conversation_member-HasMember m conversation_id user_id r.cid r.uid db
            r.parsed_conversation r.parsed_user r.member;
      found = r.found;
      newly_read = ap (map message_id_of) (filter-same q p db.messages same);
      answered = ap (λ x. x.0) e;
      stored = ap (λ x. x.1) e;
      none_left = sym (count-same q p db'.messages same) ∙ none;
    }
