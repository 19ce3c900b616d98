-- ===== src/System/Privacy.antt =====
-- What holds of the whole server, whatever is asked of it and in whichever order
-- (src/sockets/index.ts, src/sockets/handlers/*.ts, src/app.ts).
use mathlib.Core.Path.{subst}
use react_websocket_chat.Prelude.{
  ℕ, String, ◌≡◌, &&-true, Bool, true, false, ◌&&◌, List, [], ◌∷◌, arith, All, str_eq, str_eq_iff,
  if◌then◌else◌, Bool-cases, inl, inr,
}
use react_websocket_chat.Exec.{ok}
use react_websocket_chat.Model.{Db}
use react_websocket_chat.Mongo.{Mongo}
use react_websocket_chat.Limiter.{RateLimits}
use react_websocket_chat.Conversations.{Stamp, is_conversation_member}
use react_websocket_chat.Conversations.Members.{KeepsMembers}
use react_websocket_chat.Presence.{has}
use react_websocket_chat.Server.{JwtPayload, Call, emit_room, emit_others, join, leave, ack, Server}
use react_websocket_chat.Http.App.{Libraries, Request, handle}
use react_websocket_chat.Http.Failures.{app-IsSafe}
use react_websocket_chat.System.{
  SocketEvent, client_send, client_delivered, client_read, client_join, client_leave, client_typing,
  socket_with_id, on_event, on_request, World, Step, request, connect, event, disconnect, Reach,
  started, later,
}
use react_websocket_chat.System.Grows.{
  RoomMember, HasMemberAuthors, Permitted, Grows, Grows-refl, Grows-trans, writes-Grows,
  All-implies,
}
use react_websocket_chat.System.Handlers.{
  on_message_send-Grows, on_message_delivered-Grows, on_message_read-Grows, broadcast_typing-Grows,
  join-Grows, leave-Grows,
}
use react_websocket_chat.System.Connections.{on_connection-Grows, on_disconnect-Grows}

on_event-Grows :
    (m : Mongo) (owner : String → JwtPayload) (env : RateLimits) (stamp : Stamp) (id : String)
    (e : SocketEvent) (s : Server)
    → Grows m owner s (on_event m env stamp (socket_with_id owner id) e s)
unfolding on_event
on_event-Grows m owner env stamp id (client_send payload) s =
    on_message_send-Grows m owner env stamp id payload s
on_event-Grows m owner env stamp id (client_delivered message_id) s =
    on_message_delivered-Grows m owner stamp.now id message_id s
on_event-Grows m owner env stamp id (client_read payload) s =
    on_message_read-Grows m owner stamp.now id payload s
on_event-Grows m owner env stamp id (client_join room) s = join-Grows m owner id room s
on_event-Grows m owner env stamp id (client_leave room) s = leave-Grows m owner id room s
on_event-Grows m owner env stamp id (client_typing kind room) s =
    broadcast_typing-Grows m owner id kind room s

Keeps-members_authors :
    (db db' : Db)
    → KeepsMembers db.conversations db'.conversations
    → db'.messages ≡ db.messages
    → HasMemberAuthors db
    → HasMemberAuthors db'
Keeps-members_authors db db' keep same h =
    rw same (All-implies db.messages (λ msg. keep msg.conversation_id msg.sender_id) h)

on_request-Grows :
    (libs : Libraries) (owner : String → JwtPayload) (stamp : Stamp) (salt : ℕ) (r : Request)
    (s : Server)
    → Grows libs.mongo owner s (on_request libs stamp salt r s)
unfolding on_request
on_request-Grows libs owner stamp salt r s =
    let safe = app-IsSafe libs stamp salt r.authorization r.is_limited r.endpoint s.db in
    writes-Grows libs.mongo owner s (handle libs stamp salt r s.db).1 safe.members
      (Keeps-members_authors s.db (handle libs stamp salt r s.db).1 safe.members safe.same_messages)

Step-Grows :
    {libs : Libraries} {env : RateLimits} {owner : String → JwtPayload} {w v : World}
    → Step libs env owner w v
    → Grows libs.mongo owner w.server v.server
Step-Grows {libs = libs} {owner = owner} (request w stamp salt r) =
    on_request-Grows libs owner stamp salt r w.server
Step-Grows {libs = libs} {owner = owner} (connect w now id handshake admitted) =
    on_connection-Grows libs.mongo owner id now w.server
Step-Grows {libs = libs} {env = env} {owner = owner} (event w stamp id e connected) =
    on_event-Grows libs.mongo owner env stamp id e w.server
Step-Grows {libs = libs} {owner = owner} (disconnect w now id connected) =
    on_disconnect-Grows libs.mongo owner id now w.server

abbrev fresh : Db → Server
fresh db = record { db = db; buckets = []; active = []; calls = [] }

Reach-Grows :
    {libs : Libraries} {env : RateLimits} {owner : String → JwtPayload} {db : Db} {w : World}
    → Reach libs env owner db w
    → Grows libs.mongo owner (fresh db) w.server
Reach-Grows {libs = libs} {owner = owner} {db = db} started = Grows-refl libs.mongo owner (fresh db)
Reach-Grows {libs = libs} {owner = owner} {db = db} (later {w = w} {v = v} r step) =
    Grows-trans libs.mongo owner (fresh db) w.server v.server (Reach-Grows r) (Step-Grows step)

-- Whatever requests, events, connections and disconnections the server has served, in any order,
-- each event that it sent to a room concerns that room's conversation and names a user who is a
-- member of it, and each room that it let a socket join is a conversation of the socket's user.
pub Reach-Permitted :
    {libs : Libraries} {env : RateLimits} {owner : String → JwtPayload} {db : Db} {w : World}
    → Reach libs env owner db w
    → All (Permitted libs.mongo w.server.db owner) w.server.calls
Reach-Permitted r = (Reach-Grows r).calls tt

-- If each stored message is of a member of its conversation, then so it is after whatever the server
-- has served.
pub Reach-HasMemberAuthors :
    {libs : Libraries} {env : RateLimits} {owner : String → JwtPayload} {db : Db} {w : World}
    → Reach libs env owner db w
    → HasMemberAuthors db
    → HasMemberAuthors w.server.db
Reach-HasMemberAuthors r = (Reach-Grows r).authors

-- A socket's rooms are those that it has joined and not left since.
abbrev pub room_after : String → String → Bool → Call → Bool
room_after id room was (emit_room r e) = was
room_after id room was (emit_others i r e) = was
room_after id room was (join i rooms) = if str_eq i id && has room rooms then true else was
room_after id room was (leave i r) = if str_eq i id && str_eq r room then false else was
room_after id room was (ack a) = was

unfoldable pub is_in_room : String → String → Bool → List Call → Bool
is_in_room id room was [] = was
is_in_room id room was (c ∷ calls) = is_in_room id room (room_after id room was c) calls

joined-RoomMember :
    (m : Mongo) (db : Db) (user_id room : String) (rooms : List String)
    → All (λ r. RoomMember m db r user_id) rooms
    → has room rooms ≡ true
    → RoomMember m db room user_id
joined-RoomMember m db user_id room [] h joined = absurd (ground arith)
joined-RoomMember m db user_id room (r ∷ rooms) (hr, h) joined = elim (Bool-cases (str_eq r room)) [
  | inl same ↦ subst (λ x. RoomMember m db x user_id) ((str_eq_iff r room).0 same) hr
  | inr other ↦ joined-RoomMember m db user_id room rooms h (rw other at joined)
]

after-RoomMember :
    (m : Mongo) (db : Db) (owner : String → JwtPayload) (id room : String) (was : Bool) (c : Call)
    → Permitted m db owner c
    → (was ≡ true → RoomMember m db room (owner id).user_id)
    → room_after id room was c ≡ true
    → RoomMember m db room (owner id).user_id
after-RoomMember m db owner id room was (emit_room r e) allowed before now = before now
after-RoomMember m db owner id room was (emit_others i r e) allowed before now = before now
after-RoomMember m db owner id room was (join i rooms) allowed before now =
    elim (Bool-cases (str_eq i id && has room rooms)) [
      | inl joins ↦
          let (same, listed) = &&-true (str_eq i id) (has room rooms) joins in
          let socket : i ≡ id = (str_eq_iff i id).0 same in
          joined-RoomMember m db (owner id).user_id room rooms (rw socket at allowed) listed
      | inr stays ↦ before (rw stays at now)
    ]
after-RoomMember m db owner id room was (leave i r) allowed before now =
    before (ground (arith, now))
after-RoomMember m db owner id room was (ack a) allowed before now = before now

is_in_room-RoomMember :
    (m : Mongo) (db : Db) (owner : String → JwtPayload) (id room : String) (was : Bool)
    (calls : List Call)
    → All (Permitted m db owner) calls
    → (was ≡ true → RoomMember m db room (owner id).user_id)
    → is_in_room id room was calls ≡ true
    → RoomMember m db room (owner id).user_id
unfolding is_in_room
is_in_room-RoomMember m db owner id room was [] allowed before now = before now
is_in_room-RoomMember m db owner id room was (c ∷ calls) (hc, h) before now =
    is_in_room-RoomMember m db owner id room (room_after id room was c) calls h
      (after-RoomMember m db owner id room was c hc before) now

-- Whatever the server has served, only sockets of members listen: a socket that has joined a room,
-- and not left it since, is of a user who is a member of the room's conversation.
pub Reach-listeners :
    {libs : Libraries} {env : RateLimits} {owner : String → JwtPayload} {db : Db} {w : World}
    (id room : String)
    → Reach libs env owner db w
    → is_in_room id room false w.server.calls ≡ true
    → is_conversation_member libs.mongo room (owner id).user_id w.server.db ≡ ok true
Reach-listeners {libs = libs} {owner = owner} {w = w} id room r =
    is_in_room-RoomMember libs.mongo w.server.db owner id room false w.server.calls
      (Reach-Permitted r) (λ no. absurd (ground arith))
