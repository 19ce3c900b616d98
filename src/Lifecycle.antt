-- ===== src/Lifecycle.antt =====
-- src/sockets/index.ts: what happens when a socket connects and when it disconnects. The handshake
-- and the adapters belong to Socket.IO; an error that the last catch logs ends the task.
pub mod Stored
pub mod Status
pub mod Late
use react_websocket_chat.Prelude.{ℕ, List, [], ◌∷◌}
use react_websocket_chat.Exec.{◌>>◌}
use react_websocket_chat.Mongo.{Mongo}
use react_websocket_chat.Server.{Socket, Server}
use react_websocket_chat.Sockets.{
  auto_join_conversation_rooms, handle_user_connect, handle_user_disconnect,
}

-- The task that 'connection' starts, run to its end.
unfoldable pub on_connection : Mongo → ℕ → Socket → Server → Server
on_connection m now socket s =
    ((auto_join_conversation_rooms m socket >> handle_user_connect m now socket) s).1

unfoldable pub on_disconnect : Mongo → ℕ → Socket → Server → Server
on_disconnect m now socket s = (handle_user_disconnect m now socket s).1
