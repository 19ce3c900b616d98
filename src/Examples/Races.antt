-- ===== src/Examples/Races.antt =====
-- The theorem on interleaved sends, at a concrete input: ann and bob write at once.
use react_websocket_chat.Prelude.{◌≡◌, refl, [], ◌∷◌, map, some}
use react_websocket_chat.Model.{Message, Db, message_schema_text}
use react_websocket_chat.Sanitize.{trim}
use react_websocket_chat.Conversations.{is_member_of, find_membership}
use react_websocket_chat.Messages.{create_document, save_last_message}
use react_websocket_chat.Messages.Sending.{
  Found, Unsaved, Sending, SendReach, idle, further, find_conversation, create, save_conversation,
  NamesOwn,
}
use react_websocket_chat.Messages.Sending.Pointers.{SendReach-NamesOwn}
use react_websocket_chat.Examples.{mongo, to_string}
use react_websocket_chat.Examples.Sample.{db, chat, said, stamp, later, hi}
use react_websocket_chat.Model.{sent}
use react_websocket_chat.Prelude.{ℕ}
use react_websocket_chat.Exec.{ok}

abbrev hers : Message
hers = said 7 1 sent 30

abbrev his : Message
his = said 8 2 sent 40

abbrev found_by : ℕ → Found
found_by user = record { conversation = chat; conversation_id = 3; sender_id = user; text = hi }

abbrev to_save : Message → Unsaved
to_save msg = record { conversation = chat; message = msg }

abbrev with_hers : Db
with_hers = record db { messages = mongo.messages.create hers db.messages }

abbrev with_his : Db
with_his = record with_hers { messages = mongo.messages.create his with_hers.messages }

abbrev saved_his : Db
saved_his = save_last_message mongo 41 3 8 with_his

abbrev saved_hers : Db
saved_hers = save_last_message mongo 42 3 7 saved_his

-- Both have found the conversation, hers is created, then his; his is saved, then hers.
abbrev both_found : Sending
both_found = record {
  service = record { db = db; pending = [] };
  found = found_by 2 ∷ found_by 1 ∷ [];
  created = [];
}

abbrev hers_created : Sending
hers_created = record both_found {
  service = record { db = with_hers; pending = [] };
  found = found_by 2 ∷ [];
  created = to_save hers ∷ [];
}

abbrev his_created : Sending
his_created = record hers_created {
  service = record { db = with_his; pending = [] };
  found = [];
  created = to_save his ∷ to_save hers ∷ [];
}

abbrev his_saved : Sending
his_saved = record his_created {
  service = record { db = saved_his; pending = [] };
  created = to_save hers ∷ [];
}

abbrev hers_saved : Sending
hers_saved = record his_saved { service = record { db = saved_hers; pending = [] }; created = [] }

ann_found : find_membership mongo (to_string 3) (to_string 1) db ≡ ok (some chat)
unfolding find_membership is_member_of
ann_found = refl

bob_found : find_membership mongo (to_string 3) (to_string 2) db ≡ ok (some chat)
unfolding find_membership is_member_of
bob_found = refl

hers_made : create_document mongo stamp 3 1 hi db ≡ (ok hers, with_hers)
unfolding create_document message_schema_text trim
hers_made = refl

his_made : create_document mongo later 3 2 hi with_hers ≡ (ok his, with_his)
unfolding create_document message_schema_text trim
his_made = refl

raced : SendReach mongo db hers_saved
raced =
    further
      (further
        (further
          (further
            (further
              (further idle (
                find_conversation
                  (record { service = record { db = db; pending = [] }; found = []; created = [] })
                  (to_string 3) (to_string 1) (found_by 1) refl refl ann_found))
              (find_conversation
                (record {
                  service = record { db = db; pending = [] };
                  found = found_by 1 ∷ [];
                  created = [];
                })
                (to_string 3) (to_string 2) (found_by 2) refl refl bob_found))
            (create both_found stamp (found_by 2 ∷ []) [] (found_by 1) hers with_hers refl
              hers_made))
          (create hers_created later [] [] (found_by 2) his with_his refl his_made))
        (save_conversation his_created 41 [] (to_save hers ∷ []) (to_save his) refl))
      (save_conversation his_saved 42 [] [] (to_save hers) refl)

-- The message that was created last is not the one that the conversation names.
older_named : map (λ c. c.last_message) saved_hers.conversations ≡ some 7 ∷ []
unfolding save_last_message
older_named = refl

SendReach-NamesOwn_example : NamesOwn saved_hers.messages saved_hers.conversations
SendReach-NamesOwn_example = SendReach-NamesOwn raced (refl, tt)
