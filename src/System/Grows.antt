-- ===== src/System/Grows.antt =====
-- What every step of the server keeps: the members of the conversations, that each stored message is
-- of a member, and that each call concerns members only (src/sockets/handlers/*.ts).
use react_websocket_chat.Prelude.{
  String, ◌≡◌, sym, true, List, [], ◌∷◌, ◌++◌, some, All, All-append, All-split,
}
use react_websocket_chat.Exec.{ok}
use react_websocket_chat.Model.{Sender, Conversation, Message, Db}
use react_websocket_chat.Mongo.{Mongo, Collection}
use react_websocket_chat.Conversations.{is_conversation_member}
use react_websocket_chat.Conversations.Members.{lists_member, KeepsMembers, member-KeepsMembers}
use react_websocket_chat.Messages.Interleaving.{Keeps}
use react_websocket_chat.Server.{
  JwtPayload, ServerEvent, message_new, message_delivered, message_read, typing_start, typing_stop,
  user_online, user_offline, Call, emit_room, emit_others, join, leave, ack, Server,
}

-- Every stored message is of a member of its conversation.
abbrev pub HasMemberAuthors : Db → Type 0
HasMemberAuthors db =
    All (λ msg. lists_member msg.conversation_id msg.sender_id db.conversations ≡ true) db.messages

module _ (m : Mongo) (db : Db) where
  abbrev pub RoomMember : String → String → Type 0
  RoomMember room user_id = is_conversation_member m room user_id db ≡ ok true

  -- The event concerns the conversation of this room, and the user that it names is a member of it.
  abbrev pub FromMember : String → ServerEvent → Type 0
  FromMember room (message_new p) =
      (author : String) × RoomMember room author
      × (m.parse p.conversation_id ≡ m.parse room)
      × ((u : Sender) → p.sender ≡ some u → m.parse author ≡ some u.id)
  FromMember room (message_delivered id cid by) = (cid ≡ room) × RoomMember room by
  FromMember room (message_read cid ids by) = (cid ≡ room) × RoomMember room by
  FromMember room (typing_start cid by name) = (cid ≡ room) × RoomMember room by
  FromMember room (typing_stop cid by name) = (cid ≡ room) × RoomMember room by
  FromMember room (user_online p) = RoomMember room p.user_id
  FromMember room (user_offline p) = RoomMember room p.user_id

  -- Only members come into a room, and only events of members into it.
  abbrev pub Permitted : (String → JwtPayload) → Call → Type 0
  Permitted owner (emit_room room event) = FromMember room event
  Permitted owner (emit_others id room event) = FromMember room event
  Permitted owner (join id rooms) = All (λ room. RoomMember room (owner id).user_id) rooms
  Permitted owner (leave id room) = Unit
  Permitted owner (ack a) = Unit

pub All-implies :
    {A : Type 0} {P Q : A → Type 0} (xs : List A) → ((x : A) → P x → Q x) → All P xs → All Q xs
All-implies [] f h = tt
All-implies (x ∷ xs) f (hx, h) = (f x hx, All-implies xs f h)

module _ (m : Mongo) (db db' : Db)
    (keep : (room user_id : String)
      → RoomMember m db room user_id
      → RoomMember m db' room user_id) where
  FromMember-keep :
      (room : String) (e : ServerEvent) → FromMember m db room e → FromMember m db' room e
  FromMember-keep room (message_new p) (author, member, same, shown) =
      (author, keep room author member, same, shown)
  FromMember-keep room (message_delivered id cid by) (same, member) = (same, keep room by member)
  FromMember-keep room (message_read cid ids by) (same, member) = (same, keep room by member)
  FromMember-keep room (typing_start cid by name) (same, member) = (same, keep room by member)
  FromMember-keep room (typing_stop cid by name) (same, member) = (same, keep room by member)
  FromMember-keep room (user_online p) member = keep room p.user_id member
  FromMember-keep room (user_offline p) member = keep room p.user_id member

  Permitted-keep :
      (owner : String → JwtPayload) (c : Call) → Permitted m db owner c → Permitted m db' owner c
  Permitted-keep owner (emit_room room event) h = FromMember-keep room event h
  Permitted-keep owner (emit_others id room event) h = FromMember-keep room event h
  Permitted-keep owner (join id rooms) h =
      All-implies rooms (λ room. keep room (owner id).user_id) h
  Permitted-keep owner (leave id room) h = tt
  Permitted-keep owner (ack a) h = tt

-- What a step does to the server.
pub record Grows (m : Mongo) (owner : String → JwtPayload) (s t : Server) : Type 0 where
  pub members : KeepsMembers s.db.conversations t.db.conversations
  pub authors : HasMemberAuthors s.db → HasMemberAuthors t.db
  pub calls : All (Permitted m s.db owner) s.calls → All (Permitted m t.db owner) t.calls

module _ (m : Mongo) (owner : String → JwtPayload) where
  pub Grows-refl : (s : Server) → Grows m owner s s
  Grows-refl s = record { members = λ cid uid h. h; authors = λ h. h; calls = λ h. h }

  pub Grows-trans : (s t u : Server) → Grows m owner s t → Grows m owner t u → Grows m owner s u
  Grows-trans s t u g h = record {
    members = λ cid uid listed. h.members cid uid (g.members cid uid listed);
    authors = λ a. h.authors (g.authors a);
    calls = λ c. h.calls (g.calls c);
  }

  calls-keep :
      (db db' : Db) (cs : List Call)
      → KeepsMembers db.conversations db'.conversations
      → All (Permitted m db owner) cs
      → All (Permitted m db' owner) cs
  calls-keep db db' cs keep = All-implies cs (
      Permitted-keep m db db' (λ room user_id. member-KeepsMembers m room user_id db db' keep)
        owner)

  -- A step that only writes.
  pub writes-Grows :
      (s : Server) (db' : Db)
      → KeepsMembers s.db.conversations db'.conversations
      → (HasMemberAuthors s.db → HasMemberAuthors db')
      → Grows m owner s (record s { db = db' })
  writes-Grows s db' keep authors = record {
    members = keep;
    authors = authors;
    calls = calls-keep s.db db' s.calls keep;
  }

  -- A step that writes and then makes some calls.
  pub calls-Grows :
      (s t : Server) (cs : List Call)
      → KeepsMembers s.db.conversations t.db.conversations
      → (HasMemberAuthors s.db → HasMemberAuthors t.db)
      → t.calls ≡ s.calls ++ cs
      → All (Permitted m t.db owner) cs
      → Grows m owner s t
  calls-Grows s t cs keep authors told allowed = record {
    members = keep;
    authors = authors;
    calls = λ h. rw told (
        All-append (Permitted m t.db owner) s.calls cs (calls-keep s.db t.db s.calls keep h)
          allowed);
  }

  -- A step that leaves the database as it was.
  pub same_db-Grows :
      (s t : Server) (cs : List Call)
      → t.db ≡ s.db
      → t.calls ≡ s.calls ++ cs
      → All (Permitted m s.db owner) cs
      → Grows m owner s t
  same_db-Grows s t cs same told allowed =
      calls-Grows s t cs (λ cid uid h. rw same h) (λ h. rw same h) told (rw same allowed)

-- Messages that keep their conversations and senders keep their authors.
pub Keeps-authors :
    (cs : List Conversation) (xs ys : List Message)
    → Keeps xs ys
    → All (λ msg. lists_member msg.conversation_id msg.sender_id cs ≡ true) xs
    → All (λ msg. lists_member msg.conversation_id msg.sender_id cs ≡ true) ys
Keeps-authors cs [] [] k h = tt
Keeps-authors cs (x ∷ xs) (y ∷ ys) (k, ks) (hx, h) =
    (rw (sym k.conversation, sym k.sender) hx, Keeps-authors cs xs ys ks h)
Keeps-authors cs [] (y ∷ ys) k h = absurd k
Keeps-authors cs (x ∷ xs) [] k h = absurd k

-- A new message of a member.
pub create-authors :
    (coll : Collection Message) (msg : Message) (cs : List Conversation) (xs : List Message)
    → lists_member msg.conversation_id msg.sender_id cs ≡ true
    → All (λ x. lists_member x.conversation_id x.sender_id cs ≡ true) xs
    → All (λ x. lists_member x.conversation_id x.sender_id cs ≡ true) (coll.create msg xs)
create-authors coll msg cs xs new h =
    let (before, after, split, created) = coll.create_lem msg xs in
    let P : Message → Type 0 = λ x. lists_member x.conversation_id x.sender_id cs ≡ true in
    let (hb, ha) = All-split P before after (rw split at h) in
    rw created (All-append P before (msg ∷ after) hb (new, ha))
