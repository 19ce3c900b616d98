-- ===== src/System.antt =====
-- The whole server: what src/app.ts answers over HTTP and what the handlers that
-- src/sockets/index.ts registers do, on the one database and the maps that they share. Each request,
-- event, connection and disconnection runs to its end in one step.
pub mod Grows
pub mod Handlers
pub mod Connections
pub mod Privacy
pub mod Rooms
pub mod Listening
pub mod Delivery
use react_websocket_chat.Prelude.{ℕ, String, ◌≡◌, true, List, [], ◌∷◌, inr}
use react_websocket_chat.Model.{Db}
use react_websocket_chat.Mongo.{Mongo}
use react_websocket_chat.Limiter.{RateLimits}
use react_websocket_chat.Conversations.{Stamp}
use react_websocket_chat.Validators.{SendMessagePayload, MessageReadPayload}
use react_websocket_chat.Server.{JwtPayload, Socket, Server}
use react_websocket_chat.Presence.{has, set_delete}
use react_websocket_chat.Sockets.{
  TypingKind, on_message_send, on_message_delivered, on_message_read, on_conversation_join,
  on_conversation_leave, broadcast_typing,
}
use react_websocket_chat.Lifecycle.{on_connection, on_disconnect}
use react_websocket_chat.Http.Guards.{Handshake, socket_auth_middleware}
use react_websocket_chat.Http.App.{Libraries, Request, handle}

-- ClientToServerEvents: what a client emits
pub data SocketEvent : Type 0 where
  client_send : SendMessagePayload → SocketEvent
  client_delivered : (message_id : String) → SocketEvent
  client_read : MessageReadPayload → SocketEvent
  client_join client_leave : (conversation_id : String) → SocketEvent
  client_typing : TypingKind → (conversation_id : String) → SocketEvent

-- The listener that the register…Handlers functions give to each event.
unfoldable pub on_event : Mongo → RateLimits → Stamp → Socket → SocketEvent → Server → Server
on_event m env stamp socket (client_send payload) = on_message_send m env stamp socket payload
on_event m env stamp socket (client_delivered id) = on_message_delivered m stamp.now socket id
on_event m env stamp socket (client_read payload) = on_message_read m stamp.now socket payload
on_event m env stamp socket (client_join id) = on_conversation_join m socket id
on_event m env stamp socket (client_leave id) = on_conversation_leave socket id
on_event m env stamp socket (client_typing kind id) = λ s. (broadcast_typing m socket kind id s).1

-- A request over HTTP, on the database that the sockets use too.
unfoldable pub on_request : Libraries → Stamp → (salt : ℕ) → Request → Server → Server
on_request libs stamp salt r s = record s { db = (handle libs stamp salt r s.db).1 }

-- The server, and the ids of the sockets that are connected.
pub record World : Type 0 where
  pub server : Server
  pub sockets : List String

-- `owner` is the identity that the handshake attached to each socket: Socket.IO gives no id to two
-- sockets, so a socket's id stands for one handshake.
abbrev pub socket_with_id : (String → JwtPayload) → String → Socket
socket_with_id owner id = record { id = id; user = owner id }

pub data Step (libs : Libraries) (env : RateLimits) (owner : String → JwtPayload)
    : World → World → Type 0 where
  request :
      (w : World) (stamp : Stamp) (salt : ℕ) (r : Request)
      → Step libs env owner w (record w { server = on_request libs stamp salt r w.server })
  connect :
      (w : World) (now : ℕ) (id : String) (handshake : Handshake)
      → socket_auth_middleware libs.crypto now handshake ≡ inr (owner id)
      → Step libs env owner w (record {
        server = on_connection libs.mongo now (socket_with_id owner id) w.server;
        sockets = id ∷ w.sockets;
      })
  event :
      (w : World) (stamp : Stamp) (id : String) (e : SocketEvent)
      → has id w.sockets ≡ true
      → Step libs env owner w
          (record w { server = on_event libs.mongo env stamp (socket_with_id owner id) e w.server })
  disconnect :
      (w : World) (now : ℕ) (id : String)
      → has id w.sockets ≡ true
      → Step libs env owner w (record {
        server = on_disconnect libs.mongo now (socket_with_id owner id) w.server;
        sockets = set_delete id w.sockets;
      })

-- What the server can come to from a database, freshly started.
pub data Reach (libs : Libraries) (env : RateLimits) (owner : String → JwtPayload) (db : Db)
    : World → Type 0 where
  started :
      Reach libs env owner db (record {
        server = record { db = db; buckets = []; active = []; calls = [] };
        sockets = [];
      })
  later :
      {w v : World}
      → Reach libs env owner db w
      → Step libs env owner w v
      → Reach libs env owner db v
