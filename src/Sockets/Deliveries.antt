-- ===== src/Sockets/Deliveries.antt =====
-- What `message:delivered` and the typing events do on each of their branches
-- (src/sockets/handlers/receipt.handler.ts, src/sockets/handlers/typing.handler.ts).
use react_websocket_chat.Prelude.{
  ℕ, String, ◌≡◌, refl, ap, ◌∙◌, true, false, List, [], ◌∷◌, ◌++◌, map, some, find, arith, ◌&&◌,
  ◌==◌, if◌then◌else◌, Bool-cases, inl, inr, ◌⊎◌,
}
use react_websocket_chat.Exec.{Thrown, Result, ok, err, Result-cases, continue}
use react_websocket_chat.Model.{ObjectId, Message, MessageStatus, is_sent, delivered, rank, Db}
use react_websocket_chat.Mongo.{Mongo}
use react_websocket_chat.Conversations.{is_conversation_member}
use react_websocket_chat.Messages.{
  StatusUpdateResult, find_visible_message, advance_to_delivered, mark_message_delivered,
  save_status,
}
use react_websocket_chat.Conversations.Membership.{is_conversation_member-true_iff}
use react_websocket_chat.Messages.Marks.{HasMember, is_conversation_member-HasMember}
use react_websocket_chat.Messages.Status.{find_visible_message-Visible}
use react_websocket_chat.Validators.{parse_message_delivered, parse_typing, object_id}
use react_websocket_chat.Server.{
  Socket, message_delivered, success, emit_room, emit_others, ack, Server,
}
use react_websocket_chat.Sockets.{TypingKind, typing_event, on_message_delivered, broadcast_typing}
use react_websocket_chat.Sockets.Receipts.{explained_receipt, failed_receipt-explained}
use react_websocket_chat.Sockets.Send.{IsTurnedDown, ++_assoc}

-- What the handler did with the answers of the service.
pub record IsFound (m : Mongo) (now : ℕ) (socket : Socket) (message_id : String)
    (before after : Server) : Type 0 where
  pub msg : Message
  pub visible : find_visible_message m message_id socket.user.user_id before.db ≡ ok msg
  pub stored : after.db ≡ (advance_to_delivered m now msg before.db).1
  pub same_active : after.active ≡ before.active
  pub told :
      after.calls
      ≡ before.calls
        ++ emit_room (m.to_string msg.conversation_id) (
            message_delivered
              (m.to_string msg.id)
              (m.to_string msg.conversation_id)
              socket.user.user_id)
          ∷ ack success
          ∷ []

module _ (m : Mongo) (now : ℕ) (socket : Socket) (message_id : String) (s : Server) where
  abbrev other : String
  other = "Failed to mark message delivered"

  invalid :
      m.is_valid message_id ≡ false
      → IsTurnedDown s (on_message_delivered m now socket message_id s)
  unfolding on_message_delivered parse_message_delivered object_id
  invalid h = rw h (record { why = _; same_active = refl; same_db = refl; told = refl })

  abbrev run : Result StatusUpdateResult × Db
  run = mark_message_delivered m now message_id socket.user.user_id s.db

  run-valid :
      m.is_valid message_id ≡ true
      → run
        ≡ continue
            (find_visible_message m message_id socket.user.user_id s.db)
            (advance_to_delivered m now)
            s.db
  unfolding mark_message_delivered
  run-valid h = rw h refl

  hidden :
      (e : Thrown)
      → m.is_valid message_id ≡ true
      → find_visible_message m message_id socket.user.user_id s.db ≡ err e
      → IsTurnedDown s (on_message_delivered m now socket message_id s)
  unfolding on_message_delivered parse_message_delivered object_id
  hidden e h unseen =
      rw (h, run-valid h, unseen)
        (record {
          why = explained_receipt other e;
          same_active = refl;
          same_db = refl;
          told = ap (λ c. s.calls ++ c ∷ []) (failed_receipt-explained other e);
        })

  marked-IsFound :
      (msg : Message)
      → m.is_valid message_id ≡ true
      → find_visible_message m message_id socket.user.user_id s.db ≡ ok msg
      → IsFound m now socket message_id s (on_message_delivered m now socket message_id s)
  unfolding on_message_delivered parse_message_delivered object_id advance_to_delivered
  marked-IsFound msg h seen = elim (Bool-cases (is_sent msg.status)) [
    | inl fresh ↦ record {
      msg = msg;
      visible = seen;
      stored = rw (h, run-valid h, seen, fresh) refl;
      same_active = rw (h, run-valid h, seen, fresh) refl;
      told = rw (h, run-valid h, seen, fresh) (++_assoc s.calls _ _);
    }
    | inr later ↦ record {
      msg = msg;
      visible = seen;
      stored = rw (h, run-valid h, seen, later) refl;
      same_active = rw (h, run-valid h, seen, later) refl;
      told = rw (h, run-valid h, seen, later) (++_assoc s.calls _ _);
    }
  ]

  pub on_message_delivered-branches :
      IsTurnedDown s (on_message_delivered m now socket message_id s)
      ⊎ IsFound m now socket message_id s (on_message_delivered m now socket message_id s)
  on_message_delivered-branches = elim (Bool-cases (m.is_valid message_id)) [
    | inr bad ↦ inl (invalid bad)
    | inl good ↦ elim (Result-cases (find_visible_message m message_id socket.user.user_id s.db)) [
      | inl (e, unseen) ↦ inl (hidden e good unseen)
      | inr (msg, seen) ↦ inr (marked-IsFound msg good seen)
    ]
  ]

-- The receiver is a member of the message's conversation, the message became `delivered` if it was
-- `sent`, and nothing else of the database changed; the conversation's room was told, and then the
-- receipt was acknowledged.
pub record IsDelivered (m : Mongo) (now : ℕ) (socket : Socket) (message_id : String)
    (before after : Server) : Type 0 where
  pub id : ObjectId
  pub uid : ObjectId
  pub msg : Message
  pub parsed_message : m.parse message_id ≡ some id
  pub parsed_user : m.parse socket.user.user_id ≡ some uid
  pub found : find (λ x. x.id == id) before.db.messages ≡ some msg
  pub member : HasMember msg.conversation_id uid before.db.conversations
  pub stored : after.db ≡ record before.db {
    messages =
        map
          (λ x.
            if rank msg.status == 0 && x.id == msg.id
            then record x { status = delivered; updated_at = now }
            else x)
          before.db.messages;
  }
  pub same_active : after.active ≡ before.active
  pub told :
      after.calls
      ≡ before.calls
        ++ emit_room (m.to_string msg.conversation_id) (
            message_delivered
              (m.to_string msg.id)
              (m.to_string msg.conversation_id)
              socket.user.user_id)
          ∷ ack success
          ∷ []

map_same : (xs : List Message) → map (λ x. x) xs ≡ xs
map_same [] = refl
map_same (x ∷ xs) = ap (λ rest. x ∷ rest) (map_same xs)

rank-is_sent : (s : MessageStatus) → (rank s == 0) ≡ is_sent s
rank-is_sent s = ground arith

advance_to_delivered_lem :
    (m : Mongo) (now : ℕ) (msg : Message) (db : Db)
    → (advance_to_delivered m now msg db).1 ≡ record db {
      messages =
          map
            (λ x.
              if rank msg.status == 0 && x.id == msg.id
              then record x { status = delivered; updated_at = now }
              else x)
            db.messages;
    }
unfolding advance_to_delivered save_status
advance_to_delivered_lem m now msg db = elim (Bool-cases (is_sent msg.status)) [
  | inl fresh ↦
      rw
        (
          rank-is_sent msg.status,
          fresh,
          m.messages.update_lem (λ x. x.id == msg.id)
              (λ x. record x { status = delivered; updated_at = now }) db.messages,
        )
        refl
  | inr done ↦ rw (rank-is_sent msg.status, done, map_same db.messages) refl
]

IsFound-IsDelivered :
    (m : Mongo) (now : ℕ) (socket : Socket) (message_id : String) (s t : Server)
    → IsFound m now socket message_id s t
    → IsDelivered m now socket message_id s t
IsFound-IsDelivered m now socket message_id s t h =
    let v = find_visible_message-Visible m message_id socket.user.user_id s.db h.msg h.visible in
    let (_, uid, _, _, parsed_user, _) =
      (is_conversation_member-true_iff m (m.to_string h.msg.conversation_id) socket.user.user_id
          s.db).0
        v.member in
    record {
      id = v.id;
      uid = uid;
      msg = h.msg;
      parsed_message = v.parsed;
      parsed_user = parsed_user;
      found = v.found;
      member =
          is_conversation_member-HasMember m (m.to_string h.msg.conversation_id) socket.user.user_id
            h.msg.conversation_id uid s.db (m.parse-to_string h.msg.conversation_id) parsed_user
            v.member;
      stored = h.stored ∙ advance_to_delivered_lem m now h.msg s.db;
      same_active = h.same_active;
      told = h.told;
    }

-- A delivery receipt has two outcomes. It is turned down: one failed acknowledgement, and nothing
-- else happens. Or its sender is a member of the conversation of the message, which is stored; the
-- message becomes `delivered` if it was `sent`, and nothing else of the database changes; that
-- conversation's room is told of it once, and then it is acknowledged.
pub on_message_delivered-outcome :
    (m : Mongo) (now : ℕ) (socket : Socket) (message_id : String) (s : Server)
    → IsTurnedDown s (on_message_delivered m now socket message_id s)
      ⊎ IsDelivered m now socket message_id s (on_message_delivered m now socket message_id s)
on_message_delivered-outcome m now socket message_id s =
    elim (on_message_delivered-branches m now socket message_id s) [
      | inl down ↦ inl down
      | inr done ↦ inr (
          IsFound-IsDelivered m now socket message_id s
            (on_message_delivered m now socket message_id s) done)
    ]

-- The others in the room are told that this user, a member, types.
pub record IsTold (m : Mongo) (socket : Socket) (kind : TypingKind) (id : String)
    (before after : Server) : Type 0 where
  pub member : is_conversation_member m id socket.user.user_id before.db ≡ ok true
  pub told : after ≡ record before {
    calls =
        before.calls
        ++ emit_others socket.id id (typing_event kind id socket.user.user_id socket.user.username)
          ∷ [];
  }

-- A typing event does nothing at all, or its sender is a member of the conversation and the others
-- in its room are told so once.
pub broadcast_typing-outcome :
    (m : Mongo) (socket : Socket) (kind : TypingKind) (id : String) (s : Server)
    → let s' = (broadcast_typing m socket kind id s).1 in (s' ≡ s) ⊎ IsTold m socket kind id s s'
unfolding broadcast_typing parse_typing object_id
broadcast_typing-outcome m socket kind id s = elim (Bool-cases (m.is_valid id)) [
  | inr bad ↦ inl (rw bad refl)
  | inl good ↦ elim (Result-cases (is_conversation_member m id socket.user.user_id s.db)) [
    | inl (e, failed) ↦ inl (rw (good, failed) refl)
    | inr (true, answer) ↦ inr (record { member = answer; told = rw (good, answer) refl })
    | inr (false, answer) ↦ inl (rw (good, answer) refl)
  ]
]
