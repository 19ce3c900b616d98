-- ===== src/Examples/Witnesses.antt =====
-- The theorems at concrete inputs: a small database, and the texts and calls of one chat.
use Prim.Native.Nat.{min}
use react_websocket_chat.Prelude.{
  suc, ◌+◌, ◌≡◌, ◌↔◌, ◌⊎◌, refl, String, Bool, true, false, not, ◌&&◌, List, [], ◌∷◌, none, some,
  arith, count, length, lookup, ◌==◌, if◌then◌else◌,
}
use react_websocket_chat.Sanitize.{trim, strip_html_tags}
use react_websocket_chat.Exec.{ok}
use react_websocket_chat.Limiter.{Buckets, admitted}
use react_websocket_chat.Limiter.Users.{admitted_alone, times_of, admitted-eq-admitted_alone}
use react_websocket_chat.Limiter.Window.{HasNoWindow, admitted-eq-min}
use react_websocket_chat.Model.{ObjectId, Conversation, Message, message_schema_text}
use react_websocket_chat.Examples.{mongo, to_string}
use react_websocket_chat.Examples.Sample.{
  db, chat, stamp, later, reply, with_bob, empty_db, tied_db, reply_payload, limits, socket, server,
  markup, hi,
}
use react_websocket_chat.Conversations.{
  create_conversation, cast_all, find_membership, is_conversation_member,
  ConversationWithUnreadCount, list_conversations,
}
use react_websocket_chat.Conversations.Membership.{is_ok}
use react_websocket_chat.Conversations.Create.{create_conversation_symmetric, pair_with}
use react_websocket_chat.Conversations.Unread.{
  is_unread_in, IsListing, list_conversations-IsListing,
}
use react_websocket_chat.Conversations.History.Paging.{
  all_pages, HasDistinctTimes, is_of, all_pages_complete,
}
use react_websocket_chat.Conversations.History.Ties.{all_pages-ties}
use react_websocket_chat.Messages.{create_message, mark_messages_read, is_unread_up_to}
use react_websocket_chat.Messages.Send.{unread-create_message}
use react_websocket_chat.Messages.Marks.{Marks, mark_messages_read-Marks}
use react_websocket_chat.Messages.Status.{
  HasUniqueIds, delivered_receipt, read_receipt, receive_all, receive_all-OnlyAdvances,
}
use react_websocket_chat.Messages.Advance.{OnlyAdvances}
use react_websocket_chat.Presence.{is_user_online}
use react_websocket_chat.Presence.Connections.{
  connect, disconnect, track, linked, is_user_online-track_iff,
}
use react_websocket_chat.Validators.{message_text, valid}
use react_websocket_chat.Sockets.{on_message_send}
use react_websocket_chat.Sockets.Send.{IsTurnedDown, IsSent, on_message_send-outcome}

sends : is_ok (create_message mongo stamp (to_string 1) reply db).0 ≡ true
unfolding create_message find_membership message_schema_text trim
sends = refl

reads : is_ok (mark_messages_read mongo 30 (to_string 3) (to_string 5) (to_string 2) db).0 ≡ true
unfolding mark_messages_read is_conversation_member is_unread_up_to
reads = refl

unique_ids : HasUniqueIds db.messages
unique_ids id = ground arith

distinct_times : HasDistinctTimes 3 db.messages
distinct_times t = ground arith

abbrev opened : Conversation
opened = record chat { id = 7; last_message = none; created_at = 30; updated_at = 30 }

opens :
    create_conversation mongo stamp (to_string 1) with_bob empty_db
    ≡ (ok opened, record empty_db { conversations = opened ∷ [] })
unfolding create_conversation cast_all
opens = refl

on_message_send-outcome_example :
    IsTurnedDown server (on_message_send mongo limits stamp socket reply_payload server)
    ⊎ IsSent mongo stamp socket reply_payload server
        (on_message_send mongo limits stamp socket reply_payload server)
on_message_send-outcome_example =
    on_message_send-outcome mongo limits stamp socket reply_payload server

unread-create_message_example :
    (c : ObjectId) × (sender : ObjectId) × (mongo.parse (to_string 3) ≡ some c)
    × (mongo.parse (to_string 1) ≡ some sender)
    × (count (is_unread_in 3 2) (create_message mongo stamp (to_string 1) reply db).1.messages
        ≡ (if c == 3 && not (sender == 2) then 1 else 0) + count (is_unread_in 3 2) db.messages)
unread-create_message_example = unread-create_message mongo stamp (to_string 1) reply db 3 2 sends

mark_messages_read-Marks_example :
    let (result, db') = mark_messages_read mongo 30 (to_string 3) (to_string 5) (to_string 2) db in
    Marks mongo 30 (to_string 3) (to_string 5) (to_string 2) db result db'
mark_messages_read-Marks_example =
    mark_messages_read-Marks mongo 30 (to_string 3) (to_string 5) (to_string 2) db reads

receive_all-OnlyAdvances_example : OnlyAdvances db (
    receive_all mongo
      (read_receipt 30 (to_string 3) (to_string 5) (to_string 2)
        ∷ delivered_receipt 31 (to_string 4) (to_string 2)
        ∷ [])
      db)
receive_all-OnlyAdvances_example =
    receive_all-OnlyAdvances mongo
      (read_receipt 30 (to_string 3) (to_string 5) (to_string 2)
        ∷ delivered_receipt 31 (to_string 4) (to_string 2)
        ∷ [])
      db unique_ids

all_pages_complete_example :
    (msgs : List Message) × (all_pages mongo
        (to_string 3)
        2
        (suc (count (is_of 3) db.messages))
        none
        db
      ≡ ok msgs)
    × ((p : Message → Bool) → count p msgs ≡ count (λ msg. is_of 3 msg && p msg) db.messages)
all_pages_complete_example =
    all_pages_complete mongo (to_string 3) 3 2 db refl (ground arith) distinct_times

all_pages-ties_example :
    (msgs : List Message) × (all_pages mongo (to_string 3) 1 (suc (suc 5)) none tied_db ≡ ok msgs)
    × (length msgs ≡ 1)
all_pages-ties_example =
    all_pages-ties mongo (to_string 3) 3 1 10 5 tied_db refl (ground arith) (refl, (refl, tt))
      (ground arith)

list_conversations-IsListing_example :
    (entries : List ConversationWithUnreadCount) × (list_conversations mongo (to_string 2) db
      ≡ ok entries)
    × IsListing db 2 entries
list_conversations-IsListing_example = list_conversations-IsListing mongo (to_string 2) 2 db refl

create_conversation_symmetric_example :
    create_conversation mongo later
      (to_string 2)
      (pair_with mongo none 1)
      (record empty_db { conversations = opened ∷ [] })
    ≡ (ok opened, record empty_db { conversations = opened ∷ [] })
create_conversation_symmetric_example =
    create_conversation_symmetric mongo stamp later none none 1 2 empty_db
      (record empty_db { conversations = opened ∷ [] }) opened opens

is_user_online-track_iff_example :
    (is_user_online "u" (track (connect "u" "s1" ∷ connect "u" "s2" ∷ disconnect "u" "s1" ∷ []) [])
      ≡ true)
    ↔ ((s : String) × (linked "u" s false
            (connect "u" "s1" ∷ connect "u" "s2" ∷ disconnect "u" "s1" ∷ [])
          ≡ true))
is_user_online-track_iff_example =
    is_user_online-track_iff "u" (connect "u" "s1" ∷ connect "u" "s2" ∷ disconnect "u" "s1" ∷ [])

-- The bucket of a window that has passed.
abbrev passed : Buckets
passed = ("u", record { count = 2; window_start = 1 }) ∷ []

passed-HasNoWindow : HasNoWindow limits 11 (lookup "u" passed)
unfolding lookup
passed-HasNoWindow = omega arith

admitted-eq-min_example :
    admitted limits "u" ((11, "u") ∷ (16, "u") ∷ (17, "v") ∷ (18, "u") ∷ []) passed
    ≡ min (length (times_of "u" ((16, "u") ∷ (17, "v") ∷ (18, "u") ∷ [])) + 1) 2
admitted-eq-min_example =
    admitted-eq-min limits "u" 11 ((16, "u") ∷ (17, "v") ∷ (18, "u") ∷ []) passed (ground arith)
      passed-HasNoWindow (ground arith)

admitted-eq-admitted_alone_example :
    admitted limits "u" ((6, "u") ∷ (7, "v") ∷ (8, "u") ∷ []) []
    ≡ admitted_alone limits (times_of "u" ((6, "u") ∷ (7, "v") ∷ (8, "u") ∷ [])) (lookup "u" [])
admitted-eq-admitted_alone_example =
    admitted-eq-admitted_alone limits "u" ((6, "u") ∷ (7, "v") ∷ (8, "u") ∷ []) []

strips : message_text "text" markup ≡ valid hi
unfolding message_text trim strip_html_tags
strips = refl
