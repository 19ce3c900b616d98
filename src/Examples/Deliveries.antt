-- ===== src/Examples/Deliveries.antt =====
-- The theorem on a message's whole way, at a concrete input: ann writes to bob.
use react_websocket_chat.Prelude.{
  String, ◌≡◌, refl, true, false, List, [], ◌∷◌, ◌++◌, some, ltb, leb, length, lookup,
}
use react_websocket_chat.Sanitize.{trim, strip_html_tags}
use react_websocket_chat.Limiter.{check_message_rate_limit}
use react_websocket_chat.Conversations.{is_member_of}
use react_websocket_chat.Conversations.Members.{lists_member}
use react_websocket_chat.Presence.{add_connection, get_user_conversation_room_ids, set_user_online}
use react_websocket_chat.Server.{
  JwtPayload, SocketMessagePayload, Call, Server, message_new, emit_room, ack, success,
}
use react_websocket_chat.Sockets.{
  auto_join_conversation_rooms, handle_user_connect, on_message_send,
}
use react_websocket_chat.Lifecycle.{on_connection}
use react_websocket_chat.Thread.{Thread, message_send, send_message, is_of_current, on_new_message}
use react_websocket_chat.System.{socket_with_id}
use react_websocket_chat.System.Privacy.{is_in_room}
use react_websocket_chat.System.Delivery.{typed, sent-shown}
use react_websocket_chat.Examples.{mongo, to_string}
use react_websocket_chat.Examples.Sample.{db, server, socket, stamp, limits, markup, bob}
use react_websocket_chat.Examples.Sessions.{thread}

-- Every socket but ann's is bob's.
abbrev bobs : String → JwtPayload
bobs id = record { user_id = to_string 2; username = bob.username; email = bob.email }

abbrev bobs_thread : Thread
bobs_thread = record thread {
  current = some (record { number = 0; conversation_id = to_string 3 });
}

-- bob is connected, and something else has happened since.
abbrev busy : Server
busy =
    let s = on_connection mongo 29 (socket_with_id bobs "s2") server in
    record s { calls = s.calls ++ ack success ∷ [] }

listed : lists_member 3 2 db.conversations ≡ true
unfolding is_member_of
listed = refl

wrote : lists_member 3 1 busy.db.conversations ≡ true
unfolding is_member_of on_connection auto_join_conversation_rooms get_user_conversation_room_ids
    handle_user_connect add_connection lookup set_user_online
wrote = refl

within : (check_message_rate_limit limits 30 (to_string 1) busy.buckets).0 ≡ true
unfolding check_message_rate_limit lookup on_connection auto_join_conversation_rooms
    get_user_conversation_room_ids handle_user_connect add_connection set_user_online
within = refl

short : ltb 5000 (length (trim markup)) ≡ false
unfolding trim
short = refl

worded : leb 1 (length (strip_html_tags (trim markup))) ≡ true
unfolding trim strip_html_tags
worded = refl

opened : is_of_current (to_string 3) bobs_thread.current ≡ true
unfolding is_of_current
opened = refl

sent-shown_example :
    let t = on_message_send mongo limits stamp socket (typed mongo 3 markup) busy in
    ((send_message (some (to_string 3)) markup thread).emitted
      ≡ thread.emitted ++ message_send (to_string 3) (trim markup) ∷ [])
    × (msg : SocketMessagePayload) × (before : List Call) × (rest : List Call) × (t.calls
        ≡ before ++ emit_room (to_string 3) (message_new msg) ∷ rest)
    × (is_in_room "s2" (to_string 3) false before ≡ true)
    × (msg.text ≡ strip_html_tags (trim markup))
    × ((on_new_message msg bobs_thread).messages ≡ bobs_thread.messages ++ msg ∷ [])
sent-shown_example =
    sent-shown mongo bobs "s2" 3 2 refl limits 29 stamp socket 1 markup server busy
      (ack success ∷ []) thread bobs_thread listed refl (refl, tt) refl wrote within short worded
      opened
