-- ===== src/Sockets.antt =====
-- src/sockets/handlers/*.ts: the handlers of a socket's events. The log lines of
-- src/utils/logger.ts are left out, and an acknowledgement is recorded whether or not the client
-- passed a callback for it.
pub mod Send
pub mod Rooms
pub mod Receipts
pub mod Deliveries
use react_websocket_chat.Prelude.{
  ℕ, String, List, [], ◌∷◌, ◌++◌, map, Option, none, some, ltb, length, if◌then◌else◌,
}
use react_websocket_chat.Sanitize.{Text}
use react_websocket_chat.Exec.{Result, ok, err, pure, query, ◌>>=◌, ◌>>◌}
use react_websocket_chat.Model.{User, UserStatus, online, offline}
use react_websocket_chat.Mongo.{Mongo}
use react_websocket_chat.Limiter.{RateLimits, check_message_rate_limit}
use react_websocket_chat.Conversations.{Stamp, is_conversation_member}
use react_websocket_chat.Messages.{
  PopulatedMessage, create_message, mark_message_delivered, mark_messages_read,
}
use react_websocket_chat.Presence.{
  add_connection, remove_connection, set_user_online, set_user_offline,
  get_user_conversation_room_ids,
}
use react_websocket_chat.Validators.{
  SendMessagePayload, MessageReadPayload, parse_send_message, parse_message_delivered,
  parse_message_read, parse_typing,
}
use react_websocket_chat.Server.{
  Socket, SocketMessagePayload, PresenceEvent, ServerEvent, message_new, message_delivered,
  message_read, typing_start, typing_stop, user_online, user_offline, text, rate_limit_exceeded,
  success, success_with, failure, emit_room, emit_others, join, leave, ack, Server, Action, call,
  on_db, try_or, failed, failed_receipt, failed_always,
}

-- toSocketPayload of message.handler.ts
unfoldable pub to_socket_payload : Mongo → PopulatedMessage → SocketMessagePayload
to_socket_payload m p = record {
  id = m.to_string p.message.id;
  conversation_id = m.to_string p.message.conversation_id;
  sender = p.sender;
  text = p.message.text;
  status = p.message.status;
  created_at = p.message.created_at;
  updated_at = p.message.updated_at;
}

-- The try block of `message:send` behind the rate limit.
unfoldable pub send_body : Mongo → Stamp → Socket → SendMessagePayload → Action
send_body m stamp socket payload = do
  input ← query (λ _. parse_send_message m payload)
  created ← on_db (create_message m stamp socket.user.user_id input)
  call (emit_room input.conversation_id (message_new (to_socket_payload m created)))
  call (ack (success_with (to_socket_payload m created)))

-- message:send (message.handler.ts)
unfoldable pub on_message_send :
    Mongo → RateLimits → Stamp → Socket → SendMessagePayload → Server → Server
unfolding send_body
on_message_send m env stamp socket payload s =
    let (allowed, buckets') =
      check_message_rate_limit env stamp.now socket.user.user_id s.buckets in
    let s' = record s { buckets = buckets' } in
    if allowed
    then try_or (failed "Failed to send message") (send_body m stamp socket payload) s'
    else record s' {
      calls = s'.calls ++ ack (failure (rate_limit_exceeded env.max env.window_ms)) ∷ [];
    }

unfoldable pub delivered_body : Mongo → ℕ → Socket → String → Action
delivered_body m now socket message_id = do
  input ← query (λ _. parse_message_delivered m message_id)
  result ← on_db (mark_message_delivered m now input socket.user.user_id)
  call (
      emit_room result.conversation_id (
        message_delivered (m.to_string result.message.id) result.conversation_id
          socket.user.user_id))
  call (ack success)

-- message:delivered (receipt.handler.ts)
unfoldable pub on_message_delivered : Mongo → ℕ → Socket → String → Server → Server
unfolding delivered_body
on_message_delivered m now socket message_id =
    try_or (failed_receipt "Failed to mark message delivered")
      (delivered_body m now socket message_id)

unfoldable pub read_body : Mongo → ℕ → Socket → MessageReadPayload → Action
read_body m now socket payload = do
  input ← query (λ _. parse_message_read m payload)
  result ←
      on_db
        (mark_messages_read m now input.conversation_id input.up_to_message_id socket.user.user_id)
  (if ltb 0 (length result.message_ids)
      then call (
          emit_room result.conversation_id
            (message_read result.conversation_id result.message_ids socket.user.user_id))
      else pure tt)
  call (ack success)

-- message:read (receipt.handler.ts)
unfoldable pub on_message_read : Mongo → ℕ → Socket → MessageReadPayload → Server → Server
unfolding read_body
on_message_read m now socket payload =
    try_or (failed_receipt "Failed to mark messages read") (read_body m now socket payload)

unfoldable pub join_body : Mongo → Socket → String → Action
join_body m socket conversation_id = do
  member ← query (λ s. is_conversation_member m conversation_id socket.user.user_id s.db)
  if member
      then call (join socket.id (conversation_id ∷ [])) >> call (ack success)
      else call (ack (failure (text "Not a member of this conversation")))

-- conversation:join and conversation:leave (connection.handler.ts)
unfoldable pub on_conversation_join : Mongo → Socket → String → Server → Server
unfolding join_body
on_conversation_join m socket conversation_id =
    try_or (failed_always "Failed to join conversation") (join_body m socket conversation_id)

unfoldable pub on_conversation_leave : Socket → String → Server → Server
on_conversation_leave socket conversation_id =
    try_or (failed_always "Failed to leave conversation")
      (do call (leave socket.id conversation_id); call (ack success))

pub data TypingKind : Type 0 where
  start stop : TypingKind

abbrev pub typing_event : TypingKind → String → String → Text → ServerEvent
typing_event start = typing_start
typing_event stop = typing_stop

-- broadcastTyping (typing.handler.ts). It has no catch: an exception is an unhandled rejection.
unfoldable pub typing_body : Mongo → Socket → TypingKind → String → Action
typing_body m socket kind conversation_id = do
  member ← query (λ s. is_conversation_member m conversation_id socket.user.user_id s.db)
  if member
      then call (
          emit_others socket.id conversation_id
            (typing_event kind conversation_id socket.user.user_id socket.user.username))
      else pure tt

abbrev pub typing_parsed : Mongo → Socket → TypingKind → Result String → Action
typing_parsed m socket kind (err e) = pure tt
typing_parsed m socket kind (ok conversation_id) = typing_body m socket kind conversation_id

unfoldable pub broadcast_typing : Mongo → Socket → TypingKind → String → Action
unfolding typing_body
broadcast_typing m socket kind payload = typing_parsed m socket kind (parse_typing m payload)

-- roomIds.forEach((roomId) => socket.nsp.to(roomId).emit(event))
unfoldable pub emit_all : ServerEvent → List String → Server → Server
emit_all event rooms s = record s { calls = s.calls ++ map (λ room. emit_room room event) rooms }

-- autoJoinConversationRooms (presence.handler.ts)
unfoldable pub auto_join_conversation_rooms : Mongo → Socket → Action
auto_join_conversation_rooms m socket = do
  rooms ← query (λ s. get_user_conversation_room_ids m socket.user.user_id s.db)
  if ltb 0 (length rooms) then call (join socket.id rooms) else pure tt

-- user?.lastSeen ?? new Date()
abbrev pub last_seen_or : ℕ → Option User → ℕ
last_seen_or now none = now
last_seen_or now (some u) = u.last_seen

abbrev pub presence_event : Socket → UserStatus → ℕ → Option User → PresenceEvent
presence_event socket status now user = record {
  user_id = socket.user.user_id;
  username = socket.user.username;
  status = status;
  last_seen = last_seen_or now user;
}

-- handleUserConnect: the map first, then the database and the broadcast.
unfoldable pub announce_online : Mongo → ℕ → Socket → Action
unfolding emit_all
announce_online m now socket = do
  user ← on_db (set_user_online m now socket.user.user_id)
  rooms ← query (λ s. get_user_conversation_room_ids m socket.user.user_id s.db)
  (λ s. (ok tt, emit_all (user_online (presence_event socket online now user)) rooms s))

unfoldable pub handle_user_connect : Mongo → ℕ → Socket → Action
unfolding announce_online
handle_user_connect m now socket s =
    let (is_first, active') = add_connection socket.user.user_id socket.id s.active in
    let s' = record s { active = active' } in
    if is_first then announce_online m now socket s' else (ok tt, s')

unfoldable pub announce_offline : Mongo → ℕ → Socket → Action
unfolding emit_all
announce_offline m now socket = do
  user ← on_db (set_user_offline m now socket.user.user_id)
  rooms ← query (λ s. get_user_conversation_room_ids m socket.user.user_id s.db)
  (λ s. (ok tt, emit_all (user_offline (presence_event socket offline now user)) rooms s))

-- handleUserDisconnect
unfoldable pub handle_user_disconnect : Mongo → ℕ → Socket → Action
unfolding announce_offline
handle_user_disconnect m now socket s =
    let (is_last, active') = remove_connection socket.user.user_id socket.id s.active in
    let s' = record s { active = active' } in
    if is_last then announce_offline m now socket s' else (ok tt, s')
