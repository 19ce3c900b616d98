-- ===== src/System/Listening.antt =====
-- Who hears a message: the rooms that a socket joins when it connects (src/sockets/index.ts,
-- src/sockets/handlers/presence.handler.ts), and the room that a message is sent to
-- (src/sockets/handlers/message.handler.ts).
use react_websocket_chat.Prelude.{
  ℕ, String, ◌≡◌, Bool, true, false, List, [], ◌∷◌, ◌++◌, map, Option, some, filter, arith, All,
  ltb, length, Bool-cases, inl, inr,
}
use react_websocket_chat.Exec.{Result-cases}
use react_websocket_chat.Model.{ObjectId, User, Conversation, online, includes}
use react_websocket_chat.Mongo.{Mongo}
use react_websocket_chat.Conversations.{is_member_of}
use react_websocket_chat.Conversations.Membership.{str_eq-to_string}
use react_websocket_chat.Conversations.Members.{lists_member}
use react_websocket_chat.Presence.{
  has, add_connection, update_user, set_user_online, get_user_conversation_room_ids, id_of,
}
use react_websocket_chat.Server.{JwtPayload, ServerEvent, user_online, Call, emit_room, Server}
use react_websocket_chat.Sockets.{
  emit_all, auto_join_conversation_rooms, handle_user_connect, announce_online, presence_event,
}
use react_websocket_chat.Lifecycle.{on_connection}
use react_websocket_chat.System.{socket_with_id}
use react_websocket_chat.System.Connections.{announce}
use react_websocket_chat.System.Privacy.{is_in_room}
use react_websocket_chat.System.Rooms.{leaves, join-enters, emits-stay, still_in_room}

-- The room of a conversation is among those of its members.
has_room :
    (m : Mongo) (cid uid : ObjectId) (cs : List Conversation)
    → lists_member cid uid cs ≡ true
    → has
        (m.to_string cid)
        (map (λ c. m.to_string (id_of c)) (filter (λ c. includes uid c.members) cs))
      ≡ true
unfolding is_member_of
has_room m cid uid [] h = absurd (ground arith)
has_room m cid uid (c ∷ cs) h =
    let rest = has_room m cid uid cs in
    elim (Bool-cases (includes uid c.members)) [
      | inl in_it ↦ rw in_it (ground (arith, in_it, h, rest, str_eq-to_string m c.id cid))
      | inr outside ↦ rw outside (ground (arith, outside, h, rest))
    ]

nonempty :
    (room : String) (rooms : List String) → has room rooms ≡ true → ltb 0 (length rooms) ≡ true
nonempty room [] h = absurd (ground arith)
nonempty room (r ∷ rooms) h = ground arith

module _ (m : Mongo) (owner : String → JwtPayload) (id : String) (cid uid : ObjectId)
    (known : m.parse (owner id).user_id ≡ some uid) where
  abbrev Listens : Server → Type 0
  Listens s = is_in_room id (m.to_string cid) false s.calls ≡ true

  auto_join-Listens :
      (s : Server)
      → lists_member cid uid s.db.conversations ≡ true
      → Listens (auto_join_conversation_rooms m (socket_with_id owner id) s).1
  unfolding auto_join_conversation_rooms get_user_conversation_room_ids
  auto_join-Listens s member =
      let in_it : Conversation → Bool = λ c. includes uid c.members in
      let rooms : List String =
        map (λ c. m.to_string (id_of c)) (filter in_it s.db.conversations) in
      let listed : has (m.to_string cid) rooms ≡ true =
        has_room m cid uid s.db.conversations member in
      rw
        (
          known,
          m.conversations.find_many_lem in_it s.db.conversations,
          nonempty (m.to_string cid) rooms listed,
        )
        (join-enters id (m.to_string cid) s.calls rooms listed)

  announce-Listens :
      (change : User → User) (event : Option User → ServerEvent) (s : Server)
      → Listens s
      → Listens (announce m owner id (update_user m (owner id).user_id change) event s).1
  unfolding emit_all
  announce-Listens change event s h =
      let (r, db') = update_user m (owner id).user_id change s.db in
      elim (Result-cases r) [
        | inl (e, threw) ↦ rw threw h
        | inr (user, done) ↦
            elim (Result-cases (get_user_conversation_room_ids m (owner id).user_id db')) [
              | inl (e, threw) ↦ rw (done, threw) h
              | inr (rooms, found) ↦
                  rw (done, found)
                    (still_in_room id (m.to_string cid) s.calls
                      (map (λ room. emit_room room (event user)) rooms) h
                      (emits-stay id (m.to_string cid) (event user) rooms))
            ]
      ]

  connect-Listens :
      (now : ℕ) (s : Server)
      → Listens s
      → Listens (handle_user_connect m now (socket_with_id owner id) s).1
  unfolding handle_user_connect announce_online set_user_online
  connect-Listens now s h =
      let (is_first, active') = add_connection (owner id).user_id id s.active in
      elim (Bool-cases is_first) [
        | inl first ↦ rw first (
            announce-Listens (λ u. record u { status = online; updated_at = now })
              (λ user. user_online (presence_event (socket_with_id owner id) online now user))
              (record s { active = active' }) h)
        | inr again ↦ rw again h
      ]

  -- A socket that connects is in the room of each conversation that its user is a member of.
  pub on_connection-Listens :
      (now : ℕ) (s : Server)
      → lists_member cid uid s.db.conversations ≡ true
      → Listens (on_connection m now (socket_with_id owner id) s)
  unfolding on_connection
  on_connection-Listens now s member =
      let (r, s') = auto_join_conversation_rooms m (socket_with_id owner id) s in
      let joined : Listens s' = auto_join-Listens s member in
      elim (Result-cases r) [
        | inl (e, threw) ↦ rw (on_connection, threw) joined
        | inr (u, done) ↦ rw (on_connection, done) (connect-Listens now s' joined)
      ]

  -- It stays there as long as no call takes it out.
  pub on_connection-still_Listens :
      (now : ℕ) (s v : Server) (others : List Call)
      → lists_member cid uid s.db.conversations ≡ true
      → v.calls ≡ (on_connection m now (socket_with_id owner id) s).calls ++ others
      → All (λ c. leaves id (m.to_string cid) c ≡ false) others
      → Listens v
  on_connection-still_Listens now s v others member calls quiet = rw calls (
      still_in_room id (m.to_string cid) (on_connection m now (socket_with_id owner id) s).calls
        others (on_connection-Listens now s member) quiet)
