-- ===== src/System/Connections.antt =====
-- Connecting and disconnecting (src/sockets/index.ts, src/sockets/handlers/presence.handler.ts) keep
-- what every step keeps.
use react_websocket_chat.Prelude.{
  ℕ, String, ◌≡◌, refl, sym, ap, ◌∙◌, Bool, true, List, [], ◌∷◌, map, Option, arith, All, filter,
  ltb, length, ==_refl, inl, inr, Bool-cases, Option-cases,
}
use react_websocket_chat.Exec.{ok, Exec, Result-cases, ok-injective, query, continue, ◌>>=◌}
use react_websocket_chat.Model.{ObjectId, User, online, offline, Conversation, Db, includes}
use react_websocket_chat.Mongo.{Mongo}
use react_websocket_chat.Conversations.{is_member_of}
use react_websocket_chat.Conversations.Membership.{is_conversation_member-true_iff}
use react_websocket_chat.Conversations.Members.{lists_member}
use react_websocket_chat.Presence.{
  update_user, set_user_online, set_user_offline, get_user_conversation_room_ids, id_of,
  add_connection, remove_connection, ActiveConnections,
}
use react_websocket_chat.Server.{
  JwtPayload, ServerEvent, user_online, user_offline, emit_room, Action, on_db, Server,
}
use react_websocket_chat.Sockets.{
  emit_all, auto_join_conversation_rooms, handle_user_connect, handle_user_disconnect,
  announce_online, announce_offline, presence_event,
}
use react_websocket_chat.Lifecycle.{on_connection, on_disconnect}
use react_websocket_chat.System.{socket_with_id}
use react_websocket_chat.System.Grows.{
  RoomMember, FromMember, Permitted, All-implies, Grows, Grows-refl, Grows-trans, writes-Grows,
  same_db-Grows,
}

All-map :
    {A B : Type 0} (P : B → Type 0) (f : A → B) (xs : List A)
    → All (λ x. P (f x)) xs
    → All P (map f xs)
All-map P f [] h = tt
All-map P f (x ∷ xs) (hx, h) = (hx, All-map P f xs h)

head-listed :
    (uid : ObjectId) (c : Conversation) (cs : List Conversation)
    → includes uid c.members ≡ true
    → lists_member c.id uid (c ∷ cs) ≡ true
unfolding is_member_of
head-listed uid c cs in_it = ground (arith, ==_refl c.id, in_it)

-- The conversations that a search by member finds list that member.
found-listed :
    (uid : ObjectId) (cs : List Conversation)
    → All (λ c. lists_member c.id uid cs ≡ true) (filter (λ c. includes uid c.members) cs)
found-listed uid [] = tt
found-listed uid (c ∷ cs) =
    let rest : All (λ x. lists_member x.id uid (c ∷ cs) ≡ true)
        (filter (λ x. includes uid x.members) cs) =
      All-implies (filter (λ x. includes uid x.members) cs) (λ x h. ground (arith, h))
        (found-listed uid cs) in
    elim (Bool-cases (includes uid c.members)) [
      | inl in_it ↦ rw in_it (head-listed uid c cs in_it, rest)
      | inr outside ↦ rw outside rest
    ]

module _ (m : Mongo) where
  pub rooms-RoomMember :
      (user_id : String) (db : Db) (rooms : List String)
      → get_user_conversation_room_ids m user_id db ≡ ok rooms
      → All (λ room. RoomMember m db room user_id) rooms
  unfolding get_user_conversation_room_ids
  rooms-RoomMember user_id db rooms h = elim (Option-cases (m.parse user_id)) [
    | inl unparsed ↦ absurd (ground arith)
    | inr (uid, parsed) ↦
        let in_it : Conversation → Bool = λ c. includes uid c.members in
        let same : map (λ c. m.to_string (id_of c)) (filter in_it db.conversations) ≡ rooms =
          ap (λ found. map (λ c. m.to_string (id_of c)) found)
            (sym (m.conversations.find_many_lem in_it db.conversations))
          ∙ ok-injective _ rooms (rw parsed at h) in
        rw (← same) (
          All-map (λ room. RoomMember m db room user_id) (λ c. m.to_string (id_of c))
            (filter in_it db.conversations)
            (All-implies (filter in_it db.conversations)
              (λ c listed.
                (is_conversation_member-true_iff m (m.to_string c.id) user_id db).1
                  (c.id, uid, m.is_valid-to_string c.id, m.parse-to_string c.id, parsed, listed))
              (found-listed uid db.conversations)))
  ]

  pub update_user-same :
      (user_id : String) (change : User → User) (db : Db)
      → let db' = (update_user m user_id change db).1 in
        (db'.conversations ≡ db.conversations) × (db'.messages ≡ db.messages)
  unfolding update_user
  update_user-same user_id change db = ground arith

module _ (m : Mongo) (owner : String → JwtPayload) (id : String) where
  pub auto_join-Grows :
      (s : Server) → Grows m owner s (auto_join_conversation_rooms m (socket_with_id owner id) s).1
  unfolding auto_join_conversation_rooms
  auto_join-Grows s =
      elim (Result-cases (get_user_conversation_room_ids m (owner id).user_id s.db)) [
        | inl (e, threw) ↦ rw threw (Grows-refl m owner s)
        | inr (rooms, found) ↦ elim (Bool-cases (ltb 0 (length rooms))) [
          | inl some_room ↦
              rw (found, some_room)
                (same_db-Grows m owner s _ _ refl refl
                  (rooms-RoomMember m (owner id).user_id s.db rooms found, tt))
          | inr no_room ↦ rw (found, no_room) (Grows-refl m owner s)
        ]
      ]

  -- The broadcast of a status, whatever is stored of the user.
  abbrev pub announce : Exec Db (Option User) → (Option User → ServerEvent) → Action
  announce service event = on_db service >>= λ user.
      query (λ s. get_user_conversation_room_ids m (owner id).user_id s.db) >>= λ rooms s.
      (ok tt, emit_all (event user) rooms s)

  module _ (event : Option User → ServerEvent)
      (shown : (db : Db) (room : String) (user : Option User)
        → RoomMember m db room (owner id).user_id
        → FromMember m db room (event user)) where
    emitted-Grows :
        (user : Option User) (s : Server)
        → Grows m owner s
            (continue
              (get_user_conversation_room_ids m (owner id).user_id s.db)
              (λ rooms s'. (ok tt, emit_all (event user) rooms s'))
              s).1
    unfolding emit_all
    emitted-Grows user s =
        elim (Result-cases (get_user_conversation_room_ids m (owner id).user_id s.db)) [
          | inl (e, threw) ↦ rw threw (Grows-refl m owner s)
          | inr (rooms, found) ↦ rw found (
              same_db-Grows m owner s _ (map (λ room. emit_room room (event user)) rooms) refl refl
                (All-map (Permitted m s.db owner) (λ room. emit_room room (event user)) rooms
                  (All-implies rooms (λ room. shown s.db room user)
                    (rooms-RoomMember m (owner id).user_id s.db rooms found))))
        ]

    announce-Grows :
        (change : User → User) (s : Server)
        → Grows m owner s (announce (update_user m (owner id).user_id change) event s).1
    announce-Grows change s =
        let (r, db') = update_user m (owner id).user_id change s.db in
        let (same_conversations, same_messages) =
          update_user-same m (owner id).user_id change s.db in
        let stored : Server = record s { db = db' } in
        let written : Grows m owner s stored =
          writes-Grows m owner s db' (λ cid uid h. rw same_conversations h)
            (λ h. rw (same_conversations, same_messages) h) in
        elim (Result-cases r) [
          | inl (e, threw) ↦ rw threw written
          | inr (user, done) ↦
              rw done (Grows-trans m owner s stored _ written (emitted-Grows user stored))
        ]

  -- The map of connections is not part of what is kept.
  active-Grows :
      (s t : Server) (active' : ActiveConnections)
      → Grows m owner (record s { active = active' }) t
      → Grows m owner s t
  active-Grows s t active' h = record { members = h.members; authors = h.authors; calls = h.calls }

  online-Grows :
      (now : ℕ) (s : Server) → Grows m owner s (announce_online m now (socket_with_id owner id) s).1
  unfolding announce_online set_user_online
  online-Grows now s =
      announce-Grows
        (λ user. user_online (presence_event (socket_with_id owner id) online now user))
        (λ db room user member. member) (λ u. record u { status = online; updated_at = now }) s

  offline-Grows :
      (now : ℕ) (s : Server)
      → Grows m owner s (announce_offline m now (socket_with_id owner id) s).1
  unfolding announce_offline set_user_offline
  offline-Grows now s =
      announce-Grows
        (λ user. user_offline (presence_event (socket_with_id owner id) offline now user))
        (λ db room user member. member)
        (λ u. record u { status = offline; last_seen = now; updated_at = now }) s

  connect-Grows :
      (now : ℕ) (s : Server)
      → Grows m owner s (handle_user_connect m now (socket_with_id owner id) s).1
  unfolding handle_user_connect
  connect-Grows now s =
      let (is_first, active') = add_connection (owner id).user_id id s.active in
      let s' : Server = record s { active = active' } in
      active-Grows s _ active' (elim (Bool-cases is_first) [
        | inl first ↦ rw first (online-Grows now s')
        | inr again ↦ rw again (Grows-refl m owner s')
      ])

  pub on_connection-Grows :
      (now : ℕ) (s : Server) → Grows m owner s (on_connection m now (socket_with_id owner id) s)
  unfolding on_connection
  on_connection-Grows now s =
      let (r, s') = auto_join_conversation_rooms m (socket_with_id owner id) s in
      elim (Result-cases r) [
        | inl (e, threw) ↦ rw (on_connection, threw) (auto_join-Grows s)
        | inr (u, done) ↦
            rw (on_connection, done)
              (Grows-trans m owner s s' _ (auto_join-Grows s) (connect-Grows now s'))
      ]

  pub on_disconnect-Grows :
      (now : ℕ) (s : Server) → Grows m owner s (on_disconnect m now (socket_with_id owner id) s)
  unfolding on_disconnect handle_user_disconnect
  on_disconnect-Grows now s =
      let (is_last, active') = remove_connection (owner id).user_id id s.active in
      let s' : Server = record s { active = active' } in
      active-Grows s _ active' (elim (Bool-cases is_last) [
        | inl last ↦ rw (on_disconnect, last) (offline-Grows now s')
        | inr still ↦ rw (on_disconnect, still) (Grows-refl m owner s')
      ])
