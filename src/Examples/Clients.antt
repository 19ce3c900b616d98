-- ===== src/Examples/Clients.antt =====
-- The theorems on sessions, views and receipts, at concrete inputs.
use react_websocket_chat.Prelude.{List, ◌≡◌, refl, true, [], ◌∷◌, some, is_some, ◌⊎◌}
use react_websocket_chat.Exec.{ok}
use react_websocket_chat.Model.{sent, Message}
use react_websocket_chat.Conversations.{is_conversation_member}
use react_websocket_chat.Session.{
  Session, mount, received, on_restored, app_shell, chat_page, logout,
}
use react_websocket_chat.Session.Agreement.{
  mounted, later, restored, logged_out, Agrees, IsStored, Reach-Agrees,
}
use react_websocket_chat.Thread.{Thread}
use react_websocket_chat.Views.Receipts.{exchange, exchange_ends}
use react_websocket_chat.Examples.{mongo, to_string}
use react_websocket_chat.Validators.{MessageReadPayload}
use react_websocket_chat.Sockets.{on_message_read}
use react_websocket_chat.Sockets.Send.{IsTurnedDown}
use react_websocket_chat.Sockets.Receipts.{IsMarked, on_message_read-outcome}
use react_websocket_chat.Messages.{find_message, advance_to_delivered}
use react_websocket_chat.Messages.Interleaving
use react_websocket_chat.Messages.Interleaving.{
  Receipt, Service, find_by_id, check_reader, check_member, drop, save, reading, found_message,
  admitted, Keeps,
}
use react_websocket_chat.Messages.Interleaving.Reads.{KeepsReads, Reach-KeepsReads}
use react_websocket_chat.Conversations.{find_membership, is_member_of}
use react_websocket_chat.Messages.Log.{
  log, Command, send, mark_read, serve_all, replay, serve_all-refines_replay,
}
use react_websocket_chat.Examples.Sample.{said, reply, db, stamp, server, socket}
use react_websocket_chat.Examples.Sessions.{shown, thread}
use react_websocket_chat.Examples.Tokens.{sign}
use react_websocket_chat.Examples.Accounts.{carl_json, carl_payload}

abbrev opened : Session
opened = on_restored (received carl_json) (mount (some (sign 0 carl_payload)))

on_chat_page : app_shell opened ≡ chat_page
unfolding app_shell on_restored mount
on_chat_page = refl

Reach-Agrees_example : Agrees (logout opened) × IsStored true (logout opened)
Reach-Agrees_example = Reach-Agrees (
    later
      (later (mounted (some (sign 0 carl_payload)))
        (restored (mount (some (sign 0 carl_payload))) (received carl_json)))
      (logged_out opened on_chat_page))

-- ann reads bob's message.
abbrev open_chat : Thread
open_chat = record thread {
  messages = record shown { id = to_string 6; conversation_id = to_string 3 } ∷ [];
  current = some (record { number = 0; conversation_id = to_string 3 });
}

exchange_ends_example :
    is_some (exchange mongo socket (to_string 3) (30 ∷ 31 ∷ []) server open_chat) ≡ true
exchange_ends_example = exchange_ends mongo socket (to_string 3) 30 31 [] server open_chat

abbrev calls : List Command
calls =
    send stamp (to_string 1) reply
    ∷ mark_read 40 (to_string 3) (to_string 7) (to_string 2)
    ∷ mark_read 41 (to_string 3) (to_string 9) (to_string 2)
    ∷ []

serve_all-refines_replay_example :
    log (serve_all mongo calls db).1 ≡ replay mongo (serve_all mongo calls db).0 (log db)
serve_all-refines_replay_example = serve_all-refines_replay mongo calls db

-- ann's message is found as sent, bob is admitted, another receipt is given up, and the first is saved.
abbrev hello : Message
hello = said 4 1 sent 10

hello_found : find_message mongo (to_string 4) db ≡ ok (some hello)
unfolding find_message
hello_found = refl

bob_admitted : is_conversation_member mongo (to_string 3) (to_string 2) db ≡ ok true
unfolding is_conversation_member find_membership is_member_of
bob_admitted = refl

abbrev service : List Receipt → Service
service pending = record { db = db; pending = pending }

abbrev read_also : Receipt
read_also = reading (to_string 3) (to_string 5) (to_string 2)

Reach-KeepsReads_example :
    let messages = (advance_to_delivered mongo 41 hello db).1.messages in
    Keeps db.messages messages × KeepsReads db.messages messages
Reach-KeepsReads_example = Reach-KeepsReads {m = mongo} (
    Interleaving.later
      (Interleaving.later
        (Interleaving.later
          (Interleaving.later
            (Interleaving.later Interleaving.here
              (find_by_id (service []) (to_string 4) (to_string 2) hello refl hello_found))
            (check_reader (service (found_message (to_string 2) hello ∷ [])) (to_string 3)
              (to_string 5) (to_string 2) refl refl bob_admitted))
          (check_member (service (read_also ∷ found_message (to_string 2) hello ∷ []))
            (read_also ∷ []) [] (to_string 2) hello refl bob_admitted))
        (drop (service (read_also ∷ admitted hello ∷ [])) [] (admitted hello ∷ []) read_also refl))
      (save (service (admitted hello ∷ [])) 41 [] [] hello refl))

abbrev read_payload : MessageReadPayload
read_payload = record { conversation_id = to_string 3; up_to_message_id = to_string 6 }

on_message_read-outcome_example :
    IsTurnedDown server (on_message_read mongo 30 socket read_payload server)
    ⊎ IsMarked mongo 30 socket read_payload server
        (on_message_read mongo 30 socket read_payload server)
on_message_read-outcome_example = on_message_read-outcome mongo 30 socket read_payload server
