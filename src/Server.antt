-- ===== src/Server.antt =====
-- The state that the socket handlers of src/sockets/ share, and the types of src/types/socket.d.ts.
-- What a handler asks of Socket.IO is recorded in the order of the calls: rooms joined and left,
-- events emitted, acknowledgements.
use react_websocket_chat.Prelude.{ℕ, String, List, [], ◌∷◌, ◌++◌, map, Option}
use react_websocket_chat.Sanitize.{Text}
use react_websocket_chat.Exec.{
  Issue, Thrown, app_error, zod_error, cast_error, validation_error, duplicate_key, bad_query,
  Result, ok, err, Exec,
}
use react_websocket_chat.Model.{Sender, UserStatus, MessageStatus, Db}
use react_websocket_chat.Limiter.{Buckets}
use react_websocket_chat.Presence.{ActiveConnections}

-- JwtPayload, the identity that the handshake attaches to a socket
pub record JwtPayload : Type 0 where
  pub user_id : String
  pub username : Text
  pub email : Text

-- A socket: its id and its `data.user`.
pub record Socket : Type 0 where
  pub id : String
  pub user : JwtPayload

-- SocketMessagePayload; the populated sender is `none` where no such user exists
pub record SocketMessagePayload : Type 0 where
  pub id : String
  pub conversation_id : String
  pub sender : Option Sender
  pub text : Text
  pub status : MessageStatus
  pub created_at : ℕ
  pub updated_at : ℕ

pub record PresenceEvent : Type 0 where
  pub user_id : String
  pub username : Text
  pub status : UserStatus
  pub last_seen : ℕ

-- ServerToClientEvents
pub data ServerEvent : Type 0 where
  message_new : SocketMessagePayload → ServerEvent
  message_delivered : (message_id conversation_id delivered_by : String) → ServerEvent
  message_read :
      (conversation_id : String) → (message_ids : List String) → (read_by : String) → ServerEvent
  typing_start typing_stop : (conversation_id user_id : String) → (username : Text) → ServerEvent
  user_online user_offline : PresenceEvent → ServerEvent

-- The message of a failed acknowledgement: a text, the issues that follow "Validation
-- error: ", with their paths or only their messages, or
-- the limits that the rate limiter's text shows.
pub data AckMessage : Type 0 where
  text : String → AckMessage
  validation_issues : List Issue → AckMessage
  validation_messages : List String → AckMessage
  rate_limit_exceeded : (max window_ms : ℕ) → AckMessage

-- SocketAck and MessageSendAck
pub data Ack : Type 0 where
  success : Ack
  success_with : SocketMessagePayload → Ack
  failure : AckMessage → Ack

pub data Call : Type 0 where
  -- socket.nsp.to(room).emit(event), socket.to(room).emit(event)
  emit_room : (room : String) → ServerEvent → Call
  emit_others : (socket_id room : String) → ServerEvent → Call
  -- socket.join(rooms), socket.leave(room)
  join : (socket_id : String) → (rooms : List String) → Call
  leave : (socket_id room : String) → Call
  -- ack?.(response)
  ack : Ack → Call

-- The server: the database, the two maps in memory, and the calls so far.
pub record Server : Type 0 where
  pub db : Db
  pub buckets : Buckets
  pub active : ActiveConnections
  pub calls : List Call

abbrev pub Action : Type 0
Action = Exec Server (Unit {0})

abbrev pub call : Call → Action
call c s = (ok tt, record s { calls = s.calls ++ c ∷ [] })

-- A service, run on the server's database.
abbrev pub on_db : {A : Type 0} → Exec Db A → Exec Server A
on_db service s = let (r, db') = service s.db in (r, record s { db = db' })

-- The catch clause of message.handler.ts: what is acknowledged for an exception.
abbrev pub failed : String → Thrown → Call
failed other (zod_error issues) = ack (failure (validation_issues issues))
failed other (app_error e) = ack (failure (text e.message))
failed other cast_error = ack (failure (text other))
failed other validation_error = ack (failure (text other))
failed other duplicate_key = ack (failure (text other))
failed other bad_query = ack (failure (text other))

-- Those of receipt.handler.ts, which leave out the path of an issue.
abbrev pub issue_message : Issue → String
issue_message issue = issue.message

abbrev pub failed_receipt : String → Thrown → Call
failed_receipt other (zod_error issues) =
    ack (failure (validation_messages (map issue_message issues)))
failed_receipt other (app_error e) = ack (failure (text e.message))
failed_receipt other cast_error = ack (failure (text other))
failed_receipt other validation_error = ack (failure (text other))
failed_receipt other duplicate_key = ack (failure (text other))
failed_receipt other bad_query = ack (failure (text other))

-- Those of connection.handler.ts, one text for all exceptions.
abbrev pub failed_always : String → Thrown → Call
failed_always other e = ack (failure (text other))

abbrev pub settle : (Thrown → Call) → Result (Unit {0}) → Server → Server
settle caught (ok _) s = s
settle caught (err e) s = record s { calls = s.calls ++ caught e ∷ [] }

-- try { body } catch (error) { caught(error) }
abbrev pub try_or : (Thrown → Call) → Action → Server → Server
try_or caught body s = let (r, s') = body s in settle caught r s'
