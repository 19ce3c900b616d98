-- ===== src/Examples/Systems.antt =====
-- The theorems on the whole server and on the client's API, at concrete inputs.
use react_websocket_chat.Prelude.{
  ℕ, String, ◌≡◌, ◌⊎◌, refl, true, false, [], ◌∷◌, none, some, All, inr, lookup,
}
use react_websocket_chat.Exec.{ok}
use react_websocket_chat.Sanitize.{Text}
use react_websocket_chat.Conversations.{is_member_of, is_conversation_member}
use react_websocket_chat.Presence.{add_connection, get_user_conversation_room_ids, set_user_online}
use react_websocket_chat.Server.{JwtPayload}
use react_websocket_chat.Sockets.{
  auto_join_conversation_rooms, handle_user_connect, on_message_delivered,
}
use react_websocket_chat.Sockets.Send.{IsTurnedDown}
use react_websocket_chat.Sockets.Deliveries.{IsDelivered, on_message_delivered-outcome}
use react_websocket_chat.Lifecycle.{on_connection}
use react_websocket_chat.Http.Guards.{Handshake, socket_auth_middleware}
use react_websocket_chat.Session.{authorization}
use react_websocket_chat.System.{
  World, client_send, socket_with_id, on_event, on_request, Reach, started, later, connect, event,
  request,
}
use react_websocket_chat.System.Grows.{Permitted, HasMemberAuthors}
use react_websocket_chat.System.Privacy.{
  is_in_room, Reach-Permitted, Reach-HasMemberAuthors, Reach-listeners,
}
use react_websocket_chat.Examples.{mongo, to_string}
use react_websocket_chat.Examples.Sample.{db, server, socket, stamp, limits, reply_payload}
use react_websocket_chat.Examples.Tokens.{libs, crypto, sign}
use react_websocket_chat.Examples.Accounts.{join}

-- Every socket is ann's.
abbrev owner : String → JwtPayload
owner id = socket.user

abbrev handshake : Handshake
handshake = record { token = some (sign 0 socket.user); authorization = none }

ann_admitted : socket_auth_middleware crypto 30 handshake ≡ inr (owner "s1")
unfolding socket_auth_middleware
ann_admitted = refl

-- ann connects, says something, and carl signs up.
abbrev connected : World
connected = record {
  server = on_connection mongo 30 (socket_with_id owner "s1") server;
  sockets = "s1" ∷ [];
}

abbrev spoken : World
spoken = record connected {
  server =
      on_event mongo limits stamp (socket_with_id owner "s1") (client_send reply_payload)
        connected.server;
}

abbrev world : World
world = record spoken { server = on_request libs stamp 9 join spoken.server }

reached : Reach libs limits owner db world
reached =
    later
      (later
        (later started
          (connect (record { server = server; sockets = [] }) 30 "s1" handshake ann_admitted))
        (event connected stamp "s1" (client_send reply_payload) refl))
      (request spoken stamp 9 join)

Reach-Permitted_example : All (Permitted mongo world.server.db owner) world.server.calls
Reach-Permitted_example = Reach-Permitted reached

by_members : HasMemberAuthors db
unfolding is_member_of
by_members = (refl, (refl, (refl, tt)))

Reach-HasMemberAuthors_example : HasMemberAuthors world.server.db
Reach-HasMemberAuthors_example = Reach-HasMemberAuthors reached by_members

listening : is_in_room "s1" (to_string 3) false connected.server.calls ≡ true
unfolding is_in_room on_connection auto_join_conversation_rooms get_user_conversation_room_ids
    handle_user_connect add_connection lookup set_user_online
listening = refl

reached_connected : Reach libs limits owner db connected
reached_connected =
    later started
      (connect (record { server = server; sockets = [] }) 30 "s1" handshake ann_admitted)

Reach-listeners_example :
    is_conversation_member mongo (to_string 3) (to_string 1) connected.server.db ≡ ok true
Reach-listeners_example = Reach-listeners "s1" (to_string 3) reached_connected listening

abbrev no_text : ℕ → Text
no_text n = []

abbrev no_message : ℕ → String
no_message n = ""

on_message_delivered-outcome_example :
    let s' = on_message_delivered mongo 30 socket (to_string 6) server in
    IsTurnedDown server s' ⊎ IsDelivered mongo 30 socket (to_string 6) server s'
on_message_delivered-outcome_example =
    on_message_delivered-outcome mongo 30 socket (to_string 6) server
