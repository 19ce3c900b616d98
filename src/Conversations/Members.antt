-- ===== src/Conversations/Members.antt =====
-- Who is a member of a conversation stays one: what is written to the conversations
-- (src/services/conversation.service.ts, src/services/message.service.ts) keeps their members.
use react_websocket_chat.Prelude.{
  String, ◌≡◌, true, Bool, List, [], ◌∷◌, map, arith, any, any-append,
}
use react_websocket_chat.Exec.{ok}
use react_websocket_chat.Model.{ObjectId, Conversation, Db}
use react_websocket_chat.Mongo.{Mongo, Collection}
use react_websocket_chat.Conversations.{Stamp, is_member_of, is_conversation_member}
use react_websocket_chat.Conversations.Membership.{is_conversation_member-true_iff}
use react_websocket_chat.Messages.Send.{bumped}

-- Some conversation has this id and this member.
abbrev pub lists_member : ObjectId → ObjectId → List Conversation → Bool
lists_member cid uid = any (is_member_of cid uid)

abbrev pub KeepsMembers : List Conversation → List Conversation → Type 0
KeepsMembers before after =
    (cid uid : ObjectId) → lists_member cid uid before ≡ true → lists_member cid uid after ≡ true

pub create-KeepsMembers :
    (coll : Collection Conversation) (c : Conversation) (cs : List Conversation)
    → KeepsMembers cs (coll.create c cs)
create-KeepsMembers coll c cs cid uid h =
    let (before, after, split, created) = coll.create_lem c cs in
    let p : Conversation → Bool = is_member_of cid uid in
    rw created
      (ground (arith, any-append p before (c ∷ after), any-append p before after, rw split at h))

is_member_of-bumped :
    (stamp : Stamp) (id cid uid : ObjectId) (c : Conversation)
    → is_member_of cid uid (bumped stamp id c) ≡ is_member_of cid uid c
unfolding is_member_of
is_member_of-bumped stamp id cid uid c = ground arith

pub bumped-KeepsMembers :
    (stamp : Stamp) (id : ObjectId) (cs : List Conversation)
    → KeepsMembers cs (map (bumped stamp id) cs)
bumped-KeepsMembers stamp id [] cid uid h = h
bumped-KeepsMembers stamp id (c ∷ cs) cid uid h =
    ground (arith, is_member_of-bumped stamp id cid uid c, bumped-KeepsMembers stamp id cs cid uid)

-- The check of membership, after such a write.
pub member-KeepsMembers :
    (m : Mongo) (conversation_id user_id : String) (db db' : Db)
    → KeepsMembers db.conversations db'.conversations
    → is_conversation_member m conversation_id user_id db ≡ ok true
    → is_conversation_member m conversation_id user_id db' ≡ ok true
member-KeepsMembers m conversation_id user_id db db' keep h =
    let (c, u, valid, parsed_c, parsed_u, listed) =
      (is_conversation_member-true_iff m conversation_id user_id db).0 h in
    (is_conversation_member-true_iff m conversation_id user_id db').1
      (c, u, valid, parsed_c, parsed_u, keep c u listed)
