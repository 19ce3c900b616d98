-- ===== src/Examples/Sessions.antt =====
-- The theorems on connections, requests and the client's hooks, at concrete inputs.
use mathlib.Core.List.{Permᴰ}
use react_websocket_chat.Prelude.{◌≡◌, refl, true, false, [], ◌∷◌, none, some, arith, lookup}
use react_websocket_chat.Exec.{ok}
use react_websocket_chat.Model.{one_to_one, sent}
use react_websocket_chat.Conversations.{
  is_conversation_member, assert_membership, get_message_history, PaginatedMessages,
}
use react_websocket_chat.Messages.{sender_of}
use react_websocket_chat.Presence.{is_user_online, get_user_conversation_room_ids}
use react_websocket_chat.Server.{SocketMessagePayload, JwtPayload}
use react_websocket_chat.Lifecycle.Status.{connection, disconnection, live, live-StatusFollows}
use react_websocket_chat.Lifecycle.Stored.{StatusFollows}
use react_websocket_chat.Http.{history, get_message_history_handler}
use react_websocket_chat.Http.Access.{get_message_history_handler-member}
use react_websocket_chat.Thread.{Thread, page}
use react_websocket_chat.Thread.Order.{
  delivered_receipt, read_receipt, on_receipts, on_receipts-perm,
}
use react_websocket_chat.Thread.Shown.{opened, loaded, new_message, react_all, react_all-IsOwn}
use react_websocket_chat.Thread.Own.{IsOwn}
use react_websocket_chat.Inbox.{Entry}
use react_websocket_chat.Inbox.Listing.{
  arrived, started, refreshed, update_all, HasUniqueIds, update_all-HasUniqueIds,
}
use react_websocket_chat.Examples.{mongo, to_string}
use react_websocket_chat.Examples.Sample.{db, server, socket, said, hi, bob}

abbrev pub shown : SocketMessagePayload
shown = record {
  id = "m1";
  conversation_id = "c1";
  sender = some (sender_of bob);
  text = hi;
  status = sent;
  created_at = 10;
  updated_at = 10;
}

abbrev pub thread : Thread
thread = record {
  messages = shown ∷ [];
  loading = false;
  error = none;
  typing_users = [];
  current = some (record { number = 0; conversation_id = "c1" });
  runs = 1;
  typing_timer = none;
  emitted = [];
}

abbrev pub entry : Entry
entry = record {
  id = "c1";
  type = one_to_one;
  name = none;
  members = [];
  last_message = none;
  unread_count = some 0;
  created_at = 1;
  updated_at = 1;
}

on_receipts-perm_example :
    on_receipts (delivered_receipt "m1" "c1" ∷ read_receipt "c1" ("m1" ∷ []) ∷ []) thread
    ≡ on_receipts (read_receipt "c1" ("m1" ∷ []) ∷ delivered_receipt "m1" "c1" ∷ []) thread
on_receipts-perm_example =
    on_receipts-perm (delivered_receipt "m1" "c1" ∷ read_receipt "c1" ("m1" ∷ []) ∷ [])
      (read_receipt "c1" ("m1" ∷ []) ∷ delivered_receipt "m1" "c1" ∷ []) thread
      (Permᴰ.swap refl refl)

react_all-IsOwn_example : IsOwn (
    react_all
      (opened true (some "c2")
        ∷ loaded (record { number = 0; conversation_id = "c1" }) (page (shown ∷ []))
        ∷ new_message shown
        ∷ [])
      thread)
react_all-IsOwn_example =
    react_all-IsOwn
      (opened true (some "c2")
        ∷ loaded (record { number = 0; conversation_id = "c1" }) (page (shown ∷ []))
        ∷ new_message shown
        ∷ [])
      thread (tt, ((refl, tt), (tt, tt))) (refl, tt)

single : HasUniqueIds (entry ∷ [])
single id = ground arith

update_all-HasUniqueIds_example :
    HasUniqueIds
      (update_all (arrived shown ∷ started entry ∷ refreshed (entry ∷ []) ∷ []) (entry ∷ []))
update_all-HasUniqueIds_example =
    update_all-HasUniqueIds (arrived shown ∷ started entry ∷ refreshed (entry ∷ []) ∷ [])
      (entry ∷ []) (tt, (tt, (single, tt))) single

follows : StatusFollows mongo 2 server
unfolding is_user_online lookup
follows = ((λ e. absurd (ground arith)), ((λ e. refl), tt))

live-StatusFollows_example :
    StatusFollows mongo 2 (live mongo (connection 30 socket ∷ disconnection 31 socket ∷ []) server)
live-StatusFollows_example =
    live-StatusFollows mongo 2 (connection 30 socket ∷ disconnection 31 socket ∷ []) server
      ((1, refl), ((1, refl), tt)) follows

rooms_of_ann : get_user_conversation_room_ids mongo (to_string 1) db ≡ ok (to_string 3 ∷ [])
unfolding get_user_conversation_room_ids
rooms_of_ann = refl

abbrev answer : PaginatedMessages
answer = record { messages = said 6 2 sent 21 ∷ []; has_more = true; next_cursor = some 21 }

sent_page :
    (get_message_history_handler mongo (some socket.user) (to_string 3) 1 none db).0.body
    ≡ history answer
unfolding get_message_history_handler assert_membership get_message_history
sent_page = refl

get_message_history_handler-member_example :
    (caller : JwtPayload) × (some socket.user ≡ some caller)
    × (is_conversation_member mongo (to_string 3) caller.user_id db ≡ ok true)
    × (get_message_history mongo (to_string 3) 1 none db ≡ ok answer)
    × ((get_message_history_handler mongo (some socket.user) (to_string 3) 1 none db).1 ≡ db)
get_message_history_handler-member_example =
    get_message_history_handler-member mongo (some socket.user) (to_string 3) 1 none db answer
      sent_page
