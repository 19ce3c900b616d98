-- ===== src/Messages/Log.antt =====
-- What the message service does to the messages, seen as a collection without an order: where
-- MongoDB puts a new document is forgotten, and what is left is determined by the service's answers
-- (src/services/message.service.ts).
use mathlib.Core.Quot
use mathlib.Core.Quot.{Quot, Quot-set}
use react_websocket_chat.Prelude.{
  ℕ, ◌≡◌, refl, ap, sym, ◌∙◌, String, Bool, false, List, [], ◌∷◌, map, any, count, arith, str_eq,
  if◌then◌else◌, Bool-cases, inl, inr,
}
use react_websocket_chat.Exec.{Thrown, Result, Result-cases, ok, err}
use react_websocket_chat.Model.{ObjectId, Message, read, Db, includes}
use react_websocket_chat.Mongo.{Mongo}
use react_websocket_chat.Mongo.Laws.{count-create}
use react_websocket_chat.Conversations.{Stamp}
use react_websocket_chat.Conversations.Membership.{is_ok, str_eq-to_string}
use react_websocket_chat.Messages.{
  SendMessageInput, PopulatedMessage, create_message, ReadResult, populate_sender,
  mark_messages_read,
}
use react_websocket_chat.Messages.Send.{sent_message, create_message-sends, create_message_atomic}
use react_websocket_chat.Messages.Advance.{read_fails}
use react_websocket_chat.Messages.Marked.{marked, unread_ids}
use react_websocket_chat.Messages.Read.{read_request, mark_messages_read_lem}

-- Two lists hold the same messages, as often.
abbrev pub SameMessages : List Message → List Message → Type 0
SameMessages xs ys = (p : Message → Bool) → count p xs ≡ count p ys

abbrev pub Log : Type 0
Log = Quot SameMessages

abbrev pub log : Db → Log
log db = Quot.mk db.messages

pub SameMessages-cons :
    (msg : Message) (xs ys : List Message) → SameMessages xs ys → SameMessages (msg ∷ xs) (msg ∷ ys)
SameMessages-cons msg xs ys h p = omega (arith, h p)

count_of_map :
    (f : Message → Message) (p : Message → Bool) (xs : List Message)
    → count p (map f xs) ≡ count (λ x. p (f x)) xs
count_of_map f p [] = refl
count_of_map f p (x ∷ xs) = ground (arith, count_of_map f p xs)

pub SameMessages-map :
    (f : Message → Message) (xs ys : List Message)
    → SameMessages xs ys
    → SameMessages (map f xs) (map f ys)
SameMessages-map f xs ys h p = count_of_map f p xs ∙ (h (λ x. p (f x)) ∙ sym (count_of_map f p ys))

-- The operations of a log: a message is added, and every message is changed.
unfoldable pub post : Message → Log → Log
post msg =
    Quot.lift Quot-set (λ xs. Quot.mk (msg ∷ xs))
      (λ xs ys h. Quot.sound (SameMessages-cons msg xs ys h))

unfoldable pub change : (Message → Message) → Log → Log
change f =
    Quot.lift Quot-set (λ xs. Quot.mk (map f xs))
      (λ xs ys h. Quot.sound (SameMessages-map f xs ys h))

-- What an answer says of the messages: a send that returned added the message that it shows, a
-- receipt that returned made the messages read whose ids it names, and one that threw did nothing.
abbrev pub is_named : Mongo → List String → Message → Bool
is_named m ids msg = any (λ id. str_eq id (m.to_string msg.id)) ids

abbrev pub read_named : Mongo → ℕ → List String → Message → Message
read_named m now ids msg =
    if is_named m ids msg then record msg { status = read; updated_at = now } else msg

pub data Answer : Type 0 where
  sent_answer : Result PopulatedMessage → Answer
  read_answer : (now : ℕ) → Result ReadResult → Answer

unfoldable pub replay_one : Mongo → Answer → Log → Log
unfolding post change
replay_one m (sent_answer (ok r)) = post r.message
replay_one m (sent_answer (err e)) = λ l. l
replay_one m (read_answer now (ok r)) = change (read_named m now r.message_ids)
replay_one m (read_answer now (err e)) = λ l. l

create_message-refines :
    (m : Mongo) (stamp : Stamp) (sender_id : String) (input : SendMessageInput) (db : Db)
    → log (create_message m stamp sender_id input db).1
      ≡ replay_one m (sent_answer (create_message m stamp sender_id input db).0) (log db)
unfolding replay_one post populate_sender
create_message-refines m stamp sender_id input db =
    elim (Bool-cases (is_ok (create_message m stamp sender_id input db).0)) [
      | inl done ↦
          let (r, e) = create_message-sends m stamp sender_id input db done in
          rw e (
            Quot.sound
              (λ p. count-create m.messages p (sent_message stamp r.cid r.uid r.text) db.messages))
      | inr failed ↦
          let (e, threw) = err_of_not-ok (create_message m stamp sender_id input db).0 failed in
          rw threw (ap log (create_message_atomic m stamp sender_id input db failed))
    ]
  where
    err_of_not-ok : (r : Result PopulatedMessage) → is_ok r ≡ false → (e : Thrown) × (r ≡ err e)
    err_of_not-ok (ok a) h = cc
    err_of_not-ok (err e) h = (e, refl)

is_named-includes :
    (m : Mongo) (ids : List ObjectId) (msg : Message)
    → is_named m (map m.to_string ids) msg ≡ includes msg.id ids
is_named-includes m [] msg = refl
is_named-includes m (id ∷ ids) msg =
    ground (arith, str_eq-to_string m id msg.id, is_named-includes m ids msg)

read_named-marked :
    (m : Mongo) (now : ℕ) (ids : List ObjectId) (msgs : List Message)
    → map (marked now ids) msgs ≡ map (read_named m now (map m.to_string ids)) msgs
read_named-marked m now ids [] = refl
read_named-marked m now ids (msg ∷ msgs) =
    rw (is_named-includes m ids msg, read_named-marked m now ids msgs) refl

module _ (m : Mongo) (now : ℕ) (conversation_id up_to_message_id user_id : String) (db : Db) where
  abbrev run : Result ReadResult × Db
  run = mark_messages_read m now conversation_id up_to_message_id user_id db

  mark_messages_read-refines : log run.1 ≡ replay_one m (read_answer now run.0) (log db)
  unfolding replay_one change
  mark_messages_read-refines = elim (Result-cases run.0) [
    | inl (e, threw) ↦
        rw threw
          (ap log (read_fails m now conversation_id up_to_message_id user_id db (ap is_ok threw)))
    | inr (r, done) ↦
        let req = read_request m now conversation_id up_to_message_id user_id db (ap is_ok done) in
        rw (mark_messages_read_lem m now conversation_id up_to_message_id user_id db req) (
          ap Quot.mk (
            read_named-marked m now (unread_ids req.cid req.uid req.up_to.created_at db.messages)
              db.messages))
  ]

-- Calls of the service, and the answers they get one after the other.
pub data Command : Type 0 where
  send : Stamp → (sender_id : String) → SendMessageInput → Command
  mark_read : (now : ℕ) → (conversation_id up_to_message_id user_id : String) → Command

abbrev pub serve : Mongo → Command → Db → Answer × Db
serve m (send stamp sender_id input) db =
    let (r, db') = create_message m stamp sender_id input db in (sent_answer r, db')
serve m (mark_read now conversation_id up_to user_id) db =
    let (r, db') = mark_messages_read m now conversation_id up_to user_id db in
    (read_answer now r, db')

unfoldable pub serve_all : Mongo → List Command → Db → List Answer × Db
serve_all m [] db = ([], db)
serve_all m (command ∷ commands) db =
    let (answer, db') = serve m command db in
    let (answers, last) = serve_all m commands db' in (answer ∷ answers, last)

unfoldable pub replay : Mongo → List Answer → Log → Log
unfolding replay_one
replay m [] l = l
replay m (answer ∷ answers) l = replay m answers (replay_one m answer l)

serve-refines :
    (m : Mongo) (command : Command) (db : Db)
    → log (serve m command db).1 ≡ replay_one m (serve m command db).0 (log db)
serve-refines m (send stamp sender_id input) db = create_message-refines m stamp sender_id input db
serve-refines m (mark_read now conversation_id up_to user_id) db =
    mark_messages_read-refines m now conversation_id up_to user_id db

-- After any sends and read receipts, failed ones too, the stored messages are those that a reader of
-- the answers alone would compute, up to their order and wherever MongoDB placed the new ones: a
-- send that returned adds its message, a receipt that returned marks the ids it names, and what
-- threw changed nothing.
pub serve_all-refines_replay :
    (m : Mongo) (commands : List Command) (db : Db)
    → log (serve_all m commands db).1 ≡ replay m (serve_all m commands db).0 (log db)
unfolding serve_all replay
serve_all-refines_replay m [] db = refl
serve_all-refines_replay m (command ∷ commands) db =
    let (answer, db') = serve m command db in
    serve_all-refines_replay m commands db'
    ∙ ap (replay m (serve_all m commands db').0) (serve-refines m command db)
