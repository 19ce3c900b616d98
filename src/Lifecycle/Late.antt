-- ===== src/Lifecycle/Late.antt =====
-- A disconnection that is handled while the connection's task of src/sockets/index.ts still waits
-- for its rooms, so before handleUserConnect.
use react_websocket_chat.Prelude.{ℕ, ◌≡◌, true, some, ap, ◌∙◌, Bool-cases, inl, inr}
use react_websocket_chat.Exec.{ok}
use react_websocket_chat.Model.{ObjectId}
use react_websocket_chat.Mongo.{Mongo}
use react_websocket_chat.Presence.{add_connection, is_user_online}
use react_websocket_chat.Server.{Socket, Server}
use react_websocket_chat.Sockets.{
  auto_join_conversation_rooms, handle_user_connect, announce_online,
}
use react_websocket_chat.Lifecycle.{on_disconnect}
use react_websocket_chat.Lifecycle.Status.{online_after_add}
use react_websocket_chat.Lifecycle.Stored.{announced_online, if_snd}

-- The two steps of the connection, with the disconnection between them.
unfoldable pub connect_after_disconnect : Mongo → ℕ → Socket → Server → Server
connect_after_disconnect m now socket s =
    (handle_user_connect m now socket
      (on_disconnect m now socket (auto_join_conversation_rooms m socket s).1)).1

handle_user_connect-online :
    (m : Mongo) (now : ℕ) (socket : Socket) (owner : ObjectId) (s : Server)
    → m.parse socket.user.user_id ≡ some owner
    → is_user_online socket.user.user_id (handle_user_connect m now socket s).1.active ≡ true
unfolding handle_user_connect
handle_user_connect-online m now socket owner s token =
    let (first, active') = add_connection socket.user.user_id socket.id s.active in
    let s' : Server = record s { active = active' } in
    ap (λ (x : Server). is_user_online socket.user.user_id x.active)
      (if_snd first (announce_online m now socket s') (ok tt, s'))
    ∙ elim (Bool-cases first) [
      | inl e ↦
          rw (e, (announced_online m now socket owner token s').0)
            (online_after_add socket.user.user_id socket.id s.active)
      | inr e ↦ rw e (online_after_add socket.user.user_id socket.id s.active)
    ]

-- If the disconnection of a socket is handled between the two steps of its connection, the socket
-- is counted as connected afterwards: its user is online in the map of connections, although no
-- event of this socket follows. The token names a user's id.
pub connect_after_disconnect-online :
    (m : Mongo) (now : ℕ) (socket : Socket) (owner : ObjectId) (s : Server)
    → m.parse socket.user.user_id ≡ some owner
    → is_user_online socket.user.user_id (connect_after_disconnect m now socket s).active ≡ true
unfolding connect_after_disconnect
connect_after_disconnect-online m now socket owner s token =
    handle_user_connect-online m now socket owner
      (on_disconnect m now socket (auto_join_conversation_rooms m socket s).1) token
