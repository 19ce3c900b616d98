-- ===== src/System/Handlers.antt =====
-- The handlers of a socket's events (src/sockets/handlers/*.ts) keep what every step keeps.
use react_websocket_chat.Prelude.{
  ℕ, String, ◌≡◌, refl, sym, ap, ◌∙◌, true, false, [], ◌∷◌, ◌++◌, map, some, arith, All, find-true,
  ltb, ◌==◌, is_some, length, inl, inr, Bool, Bool-cases, Option-cases,
}
use react_websocket_chat.Exec.{Result-cases, ok-injective}
use react_websocket_chat.Model.{User, Sender, Message, Db}
use react_websocket_chat.Mongo.{Mongo}
use react_websocket_chat.Sanitize.{trim, strip_html_tags}
use react_websocket_chat.Limiter.{RateLimits}
use react_websocket_chat.Conversations.{Stamp, is_member_of, is_conversation_member}
use react_websocket_chat.Conversations.Membership.{is_some-find, is_conversation_member-true_iff}
use react_websocket_chat.Conversations.Members.{
  lists_member, KeepsMembers, bumped-KeepsMembers, member-KeepsMembers,
}
use react_websocket_chat.Messages.{ReadResult, save_status, populate_sender, advance_to_delivered}
use react_websocket_chat.Messages.Send.{sent_message, bumped}
use react_websocket_chat.Messages.Read.{mark_messages_read-marks}
use react_websocket_chat.Messages.Advance.{mark_messages_read-OnlyAdvances}
use react_websocket_chat.Messages.Status.{find_visible_message-Visible}
use react_websocket_chat.Messages.Interleaving.{save-Keeps, Advances-Keeps}
use react_websocket_chat.Validators.{SendMessagePayload, MessageReadPayload}
use react_websocket_chat.Server.{JwtPayload, Socket, Server, ack, success}
use react_websocket_chat.Sockets.{
  to_socket_payload, on_message_send, on_message_delivered, on_message_read, on_conversation_join,
  on_conversation_leave, TypingKind, start, stop, broadcast_typing,
}
use react_websocket_chat.Sockets.Send.{IsTurnedDown, ++_assoc, IsSent, on_message_send-outcome}
use react_websocket_chat.Sockets.Receipts.{IsRead, told_read, on_message_read-branches}
use react_websocket_chat.Sockets.Deliveries.{
  IsFound, IsTold, on_message_delivered-branches, broadcast_typing-outcome,
}
use react_websocket_chat.System.{socket_with_id}
use react_websocket_chat.System.Grows.{
  RoomMember, Permitted, All-implies, Grows, Grows-refl, calls-Grows, same_db-Grows, Keeps-authors,
  create-authors,
}

module _ (m : Mongo) (owner : String → JwtPayload) where
  turned_down-Grows : (s t : Server) → IsTurnedDown s t → Grows m owner s t
  turned_down-Grows s t h = same_db-Grows m owner s t _ h.same_db h.told (tt, tt)

  -- The populated sender is the user with this id.
  populated-id :
      (msg : Message) (db : Db) (u : Sender)
      → (populate_sender m msg db).sender ≡ some u
      → u.id ≡ msg.sender_id
  unfolding populate_sender
  populated-id msg db u h =
      let p : User → Bool = λ x. x.id == msg.sender_id in
      elim (Option-cases (m.users.find_one p db.users)) [
        | inl missing ↦ absurd (ground (arith, missing, h))
        | inr (x, found) ↦
            let hit = find-true p db.users x (sym (m.users.find_one_lem p db.users) ∙ found) in
            let same : x.id ≡ u.id = ground (arith, found, h) in ground (arith, hit, same)
      ]

  sent-Grows :
      (stamp : Stamp) (id : String) (payload : SendMessagePayload) (s t : Server)
      → IsSent m stamp (socket_with_id owner id) payload s t
      → Grows m owner s t
  unfolding to_socket_payload populate_sender
  sent-Grows stamp id payload s t h =
      let r = h.request in
      let msg : Message = sent_message stamp r.cid r.uid (strip_html_tags (trim payload.text)) in
      let listed : lists_member r.cid r.uid s.db.conversations ≡ true =
        sym (is_some-find (is_member_of r.cid r.uid) s.db.conversations) ∙ ap is_some r.found in
      let keep : KeepsMembers s.db.conversations t.db.conversations =
        rw h.stored (bumped-KeepsMembers stamp r.cid s.db.conversations) in
      let member : RoomMember m s.db payload.conversation_id (owner id).user_id =
        (is_conversation_member-true_iff m payload.conversation_id (owner id).user_id s.db).1
          (r.cid, r.uid, h.valid_room, r.parsed_conversation, r.parsed_sender, listed) in
      calls-Grows m owner s t _ keep
        (λ authors. rw h.stored (
          create-authors m.messages msg (map (bumped stamp r.cid) s.db.conversations) s.db.messages
            (bumped-KeepsMembers stamp r.cid s.db.conversations r.cid r.uid listed)
            (All-implies s.db.messages
              (λ x.
                bumped-KeepsMembers stamp r.cid s.db.conversations x.conversation_id x.sender_id)
              authors)))
        h.told
        (
          (
            (owner id).user_id,
            member-KeepsMembers m payload.conversation_id (owner id).user_id s.db t.db keep member,
            m.parse-to_string r.cid ∙ sym r.parsed_conversation,
            λ u shown. r.parsed_sender ∙ ap some (sym (populated-id msg t.db u shown)),
          ),
          (tt, tt),
        )

  advance_elsewhere :
      (now : ℕ) (msg : Message) (db : Db)
      → let db' = (advance_to_delivered m now msg db).1 in
        (db'.conversations ≡ db.conversations) × (db'.users ≡ db.users)
  unfolding advance_to_delivered save_status
  advance_elsewhere now msg db = ground arith

  delivered-Grows :
      (now : ℕ) (id message_id : String) (s t : Server)
      → IsFound m now (socket_with_id owner id) message_id s t
      → Grows m owner s t
  delivered-Grows now id message_id s t h =
      let v = find_visible_message-Visible m message_id (owner id).user_id s.db h.msg h.visible in
      let (same_conversations, same_users) = advance_elsewhere now h.msg s.db in
      let keep : KeepsMembers s.db.conversations t.db.conversations =
        λ cid uid listed. rw (h.stored, same_conversations) listed in
      calls-Grows m owner s t _ keep
        (λ authors.
          rw (h.stored, same_conversations)
            (Keeps-authors s.db.conversations s.db.messages _ (save-Keeps m now h.msg s.db)
              authors))
        h.told
        (
          (
            refl,
            member-KeepsMembers m (m.to_string h.msg.conversation_id) (owner id).user_id s.db t.db
                keep v.member,
          ),
          (tt, tt),
        )

  told_read-allowed :
      (socket : Socket) (r : ReadResult) (db : Db)
      → RoomMember m db r.conversation_id socket.user.user_id
      → All (Permitted m db owner) (told_read socket r ++ ack success ∷ [])
  told_read-allowed socket r db member = elim (Bool-cases (ltb 0 (length r.message_ids))) [
    | inl some_ids ↦ rw some_ids ((refl, member), (tt, tt))
    | inr no_ids ↦ rw no_ids (tt, tt)
  ]

  read-Grows :
      (now : ℕ) (id : String) (payload : MessageReadPayload) (s t : Server)
      → IsRead m now (socket_with_id owner id) payload s t
      → Grows m owner s t
  read-Grows now id payload s t h =
      let room : String = h.input.conversation_id in
      let up_to : String = h.input.up_to_message_id in
      let user : String = (owner id).user_id in
      let (r, e, _) = mark_messages_read-marks m now room up_to user s.db (rw h.marked refl) in
      let advances = mark_messages_read-OnlyAdvances m now room up_to user s.db in
      let keep : KeepsMembers s.db.conversations t.db.conversations =
        λ cid uid listed. rw (h.stored, ← advances.conversations) listed in
      let named : h.result.conversation_id ≡ room =
        ap (λ x. x.conversation_id) (ok-injective h.result _ (sym h.marked ∙ ap (λ x. x.0) e)) in
      calls-Grows m owner s t _ keep
        (λ authors.
          rw (h.stored, ← advances.conversations)
            (Keeps-authors s.db.conversations s.db.messages _
              (Advances-Keeps s.db.messages _ advances.messages) authors))
        h.told
        (told_read-allowed (socket_with_id owner id) h.result t.db
          (rw named (member-KeepsMembers m room user s.db t.db keep r.member)))

  typing-Grows :
      (id : String) (kind : TypingKind) (room : String) (s t : Server)
      → IsTold m (socket_with_id owner id) kind room s t
      → Grows m owner s t
  typing-Grows id start room s t h =
      same_db-Grows m owner s t _ (ap (λ x. x.db) h.told) (ap (λ x. x.calls) h.told)
        ((refl, h.member), tt)
  typing-Grows id stop room s t h =
      same_db-Grows m owner s t _ (ap (λ x. x.db) h.told) (ap (λ x. x.calls) h.told)
        ((refl, h.member), tt)

  pub join-Grows :
      (id room : String) (s : Server)
      → Grows m owner s (on_conversation_join m (socket_with_id owner id) room s)
  unfolding on_conversation_join
  join-Grows id room s =
      elim (Result-cases (is_conversation_member m room (owner id).user_id s.db)) [
        | inl (e, threw) ↦ rw threw (same_db-Grows m owner s _ _ refl refl (tt, tt))
        | inr (true, member) ↦
            rw member
              (same_db-Grows m owner s _ _ refl (++_assoc s.calls _ _) ((member, tt), (tt, tt)))
        | inr (false, outsider) ↦ rw outsider (same_db-Grows m owner s _ _ refl refl (tt, tt))
      ]

  pub leave-Grows :
      (id room : String) (s : Server)
      → Grows m owner s (on_conversation_leave (socket_with_id owner id) room s)
  unfolding on_conversation_leave
  leave-Grows id room s = same_db-Grows m owner s _ _ refl (++_assoc s.calls _ _) (tt, (tt, tt))

  pub on_message_send-Grows :
      (env : RateLimits) (stamp : Stamp) (id : String) (payload : SendMessagePayload) (s : Server)
      → Grows m owner s (on_message_send m env stamp (socket_with_id owner id) payload s)
  on_message_send-Grows env stamp id payload s =
      elim (on_message_send-outcome m env stamp (socket_with_id owner id) payload s) [
        | inl h ↦ turned_down-Grows s _ h
        | inr h ↦ sent-Grows stamp id payload s _ h
      ]

  pub on_message_delivered-Grows :
      (now : ℕ) (id message_id : String) (s : Server)
      → Grows m owner s (on_message_delivered m now (socket_with_id owner id) message_id s)
  on_message_delivered-Grows now id message_id s =
      elim (on_message_delivered-branches m now (socket_with_id owner id) message_id s) [
        | inl h ↦ turned_down-Grows s _ h
        | inr h ↦ delivered-Grows now id message_id s _ h
      ]

  pub on_message_read-Grows :
      (now : ℕ) (id : String) (payload : MessageReadPayload) (s : Server)
      → Grows m owner s (on_message_read m now (socket_with_id owner id) payload s)
  on_message_read-Grows now id payload s =
      elim (on_message_read-branches m now (socket_with_id owner id) payload s) [
        | inl h ↦ turned_down-Grows s _ h
        | inr h ↦ read-Grows now id payload s _ h
      ]

  pub broadcast_typing-Grows :
      (id : String) (kind : TypingKind) (room : String) (s : Server)
      → Grows m owner s (broadcast_typing m (socket_with_id owner id) kind room s).1
  broadcast_typing-Grows id kind room s =
      elim (broadcast_typing-outcome m (socket_with_id owner id) kind room s) [
        | inl h ↦ rw h (Grows-refl m owner s)
        | inr h ↦ typing-Grows id kind room s _ h
      ]
