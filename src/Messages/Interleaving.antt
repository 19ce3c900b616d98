-- ===== src/Messages/Interleaving.antt =====
-- Receipts that interleave: each database call that markMessageDelivered and markMessagesRead
-- (src/services/message.service.ts) await is a step, between which other receipts run.
pub mod Reads
use react_websocket_chat.Prelude.{
  ℕ, ◌≡◌, refl, ◌∙◌, String, true, false, List, [], ◌∷◌, ◌++◌, map, some, ltb, length, arith,
  All-of, Bool-cases, inl, inr, ◌==◌, if◌then◌else◌, ◌⊎◌,
}
use react_websocket_chat.Exec.{ok, Result-cases}
use react_websocket_chat.Model.{ObjectId, Message, delivered, read, is_sent, Db, includes}
use react_websocket_chat.Mongo.{Mongo}
use react_websocket_chat.Conversations.{cast_all, is_conversation_member}
use react_websocket_chat.Messages.{
  find_message, save_status, advance_to_delivered, find_in_conversation, is_unread_up_to,
  message_id_of, update_read,
}
use react_websocket_chat.Messages.Marked.{marked}
use react_websocket_chat.Messages.Advance.{Advance, Advances, Advances-map, marked-Advance}

-- A receipt between two awaits, with what it has found by then.
pub data Receipt : Type 0 where
  -- markMessageDelivered, after findById and after isConversationMember
  found_message : (user_id : String) → Message → Receipt
  admitted : Message → Receipt
  -- markMessagesRead, after isConversationMember, after findOne and after find
  reading : (conversation_id up_to_message_id user_id : String) → Receipt
  reading_up_to : (conversation_id user_id : String) → Message → Receipt
  to_mark : (message_ids : List String) → Receipt

pub record Service : Type 0 where
  pub db : Db
  pub pending : List Receipt

-- The awaited calls. `drop` is a receipt that goes no further: it failed, or has nothing to mark.
pub data Step (m : Mongo) : Service → Service → Type 0 where
  find_by_id :
      (s : Service) (message_id user_id : String) (msg : Message)
      → m.is_valid message_id ≡ true
      → find_message m message_id s.db ≡ ok (some msg)
      → Step m s (record s { pending = found_message user_id msg ∷ s.pending })
  check_member :
      (s : Service) (before after : List Receipt) (user_id : String) (msg : Message)
      → s.pending ≡ before ++ found_message user_id msg ∷ after
      → is_conversation_member m (m.to_string msg.conversation_id) user_id s.db ≡ ok true
      → Step m s (record s { pending = before ++ admitted msg ∷ after })
  save :
      (s : Service) (now : ℕ) (before after : List Receipt) (msg : Message)
      → s.pending ≡ before ++ admitted msg ∷ after
      → Step m s
          (record { db = (advance_to_delivered m now msg s.db).1; pending = before ++ after })
  check_reader :
      (s : Service) (conversation_id up_to_message_id user_id : String)
      → m.is_valid conversation_id ≡ true
      → m.is_valid up_to_message_id ≡ true
      → is_conversation_member m conversation_id user_id s.db ≡ ok true
      → Step m s
          (record s { pending = reading conversation_id up_to_message_id user_id ∷ s.pending })
  find_up_to :
      (s : Service) (before after : List Receipt)
      (conversation_id up_to_message_id user_id : String) (up_to : Message)
      → s.pending ≡ before ++ reading conversation_id up_to_message_id user_id ∷ after
      → find_in_conversation m up_to_message_id conversation_id s.db ≡ ok (some up_to)
      → Step m s
          (record s { pending = before ++ reading_up_to conversation_id user_id up_to ∷ after })
  find_to_update :
      (s : Service) (before after : List Receipt) (conversation_id user_id : String)
      (up_to : Message) (cid uid : ObjectId)
      → s.pending ≡ before ++ reading_up_to conversation_id user_id up_to ∷ after
      → m.parse conversation_id ≡ some cid
      → m.parse user_id ≡ some uid
      → Step m s (record s {
        pending =
            before
            ++ to_mark (
                map
                  (λ msg. m.to_string (message_id_of msg))
                  (m.messages.find_many (is_unread_up_to cid uid up_to.created_at) s.db.messages))
              ∷ after;
      })
  update_many :
      (s : Service) (now : ℕ) (before after : List Receipt) (message_ids : List String)
      → s.pending ≡ before ++ to_mark message_ids ∷ after
      → ltb 0 (length message_ids) ≡ true
      → Step m s (record { db = (update_read m now message_ids s.db).1; pending = before ++ after })
  drop :
      (s : Service) (before after : List Receipt) (receipt : Receipt)
      → s.pending ≡ before ++ receipt ∷ after
      → Step m s (record s { pending = before ++ after })

pub data Reach (m : Mongo) (db : Db) : Service → Type 0 where
  here : Reach m db (record { db = db; pending = [] })
  later : {s t : Service} → Reach m db s → Step m s t → Reach m db t

-- The same message; if it was delivered or read, it still is one of them.
pub record Keep (x y : Message) : Type 0 where
  pub id : x.id ≡ y.id
  pub conversation : x.conversation_id ≡ y.conversation_id
  pub sender : x.sender_id ≡ y.sender_id
  pub text : x.text ≡ y.text
  pub created : x.created_at ≡ y.created_at
  pub received : is_sent x.status ≡ false → is_sent y.status ≡ false

abbrev pub Keeps : List Message → List Message → Type 0
Keeps [] [] = Unit
Keeps (x ∷ xs) (y ∷ ys) = Keep x y × Keeps xs ys
Keeps _ _ = ⊥

Keep-refl : (x : Message) → Keep x x
Keep-refl x = record {
  id = refl;
  conversation = refl;
  sender = refl;
  text = refl;
  created = refl;
  received = λ h. h;
}

Keeps-refl : (xs : List Message) → Keeps xs xs
Keeps-refl [] = tt
Keeps-refl (x ∷ xs) = (Keep-refl x, Keeps-refl xs)

Keep-trans : (x y z : Message) → Keep x y → Keep y z → Keep x z
Keep-trans x y z a b = record {
  id = a.id ∙ b.id;
  conversation = a.conversation ∙ b.conversation;
  sender = a.sender ∙ b.sender;
  text = a.text ∙ b.text;
  created = a.created ∙ b.created;
  received = λ h. b.received (a.received h);
}

Keeps-trans : (xs ys zs : List Message) → Keeps xs ys → Keeps ys zs → Keeps xs zs
Keeps-trans [] [] [] h k = tt
Keeps-trans (x ∷ xs) (y ∷ ys) (z ∷ zs) (a, h) (b, k) =
    (Keep-trans x y z a b, Keeps-trans xs ys zs h k)
Keeps-trans [] [] (z ∷ zs) h k = absurd k
Keeps-trans [] (y ∷ ys) zs h k = absurd h
Keeps-trans (x ∷ xs) [] zs h k = absurd h
Keeps-trans (x ∷ xs) (y ∷ ys) [] h k = absurd k

Advance-Keep : (x y : Message) → Advance x y → Keep x y
Advance-Keep x y a = record {
  id = a.id;
  conversation = a.conversation;
  sender = a.sender;
  text = a.text;
  created = a.created;
  received = λ h. ground (arith, a.status, h);
}

pub Advances-Keeps : (xs ys : List Message) → Advances xs ys → Keeps xs ys
Advances-Keeps [] [] h = tt
Advances-Keeps (x ∷ xs) (y ∷ ys) (a, h) = (Advance-Keep x y a, Advances-Keeps xs ys h)
Advances-Keeps [] (y ∷ ys) h = absurd h
Advances-Keeps (x ∷ xs) [] h = absurd h

-- The save of one message.
abbrev saved : ℕ → ObjectId → Message → Message
saved now id msg = if msg.id == id then record msg { status = delivered; updated_at = now } else msg

saved-Keep : (now : ℕ) (id : ObjectId) (x : Message) → Keep x (saved now id x)
saved-Keep now id x = elim (Bool-cases (x.id == id)) [
  | inl hit ↦ rw hit (record {
    id = refl;
    conversation = refl;
    sender = refl;
    text = refl;
    created = refl;
    received = λ h. refl;
  })
  | inr miss ↦ rw miss (Keep-refl x)
]

saved-Keeps : (now : ℕ) (id : ObjectId) (xs : List Message) → Keeps xs (map (saved now id) xs)
saved-Keeps now id [] = tt
saved-Keeps now id (x ∷ xs) = (saved-Keep now id x, saved-Keeps now id xs)

pub save-Keeps :
    (m : Mongo) (now : ℕ) (msg : Message) (db : Db)
    → Keeps db.messages (advance_to_delivered m now msg db).1.messages
unfolding advance_to_delivered save_status
save-Keeps m now msg db = elim (Bool-cases (is_sent msg.status)) [
  | inl fresh ↦
      rw
        (
          fresh,
          m.messages.update_lem (λ x. x.id == msg.id)
              (λ x. record x { status = delivered; updated_at = now }) db.messages,
        )
        (saved-Keeps now msg.id db.messages)
  | inr done ↦ rw done (Keeps-refl db.messages)
]

-- What an updateMany of markMessagesRead leaves.
pub update_read-db :
    (m : Mongo) (now : ℕ) (message_ids : List String) (db : Db)
    → ((update_read m now message_ids db).1 ≡ db)
      ⊎ ((ids : List ObjectId) × ((update_read m now message_ids db).1
            ≡ record db { messages = map (marked now ids) db.messages }))
unfolding update_read
update_read-db m now message_ids db = elim (Result-cases (cast_all m message_ids)) [
  | inl (e, failed) ↦ inl (rw failed refl)
  | inr (ids, done) ↦ inr (
    ids,
    rw
        (
          done,
          m.messages.update_lem (λ msg. includes msg.id ids)
              (λ msg. record msg { status = read; updated_at = now }) db.messages,
        )
        refl,
  )
]

update_read-Keeps :
    (m : Mongo) (now : ℕ) (message_ids : List String) (db : Db)
    → Keeps db.messages (update_read m now message_ids db).1.messages
update_read-Keeps m now message_ids db = elim (update_read-db m now message_ids db) [
  | inl same ↦ rw same (Keeps-refl db.messages)
  | inr (ids, e) ↦ rw e (
      Advances-Keeps db.messages (map (marked now ids) db.messages)
        (Advances-map (marked now ids) db.messages (All-of _ db.messages (marked-Advance now ids))))
]

pub Step-Keeps : {m : Mongo} {s t : Service} → Step m s t → Keeps s.db.messages t.db.messages
Step-Keeps {m = m} (save s now before after msg split) = save-Keeps m now msg s.db
Step-Keeps {m = m} (update_many s now before after ids split some_ids) =
    update_read-Keeps m now ids s.db
Step-Keeps (find_by_id s message_id user_id msg valid found) = Keeps-refl s.db.messages
Step-Keeps (check_member s before after user_id msg split member) = Keeps-refl s.db.messages
Step-Keeps (check_reader s conversation_id up_to user_id valid valid' member) =
    Keeps-refl s.db.messages
Step-Keeps (find_up_to s before after conversation_id up_to_id user_id up_to split found) =
    Keeps-refl s.db.messages
Step-Keeps (find_to_update s before after conversation_id user_id up_to cid uid split pc pu) =
    Keeps-refl s.db.messages
Step-Keeps (drop s before after receipt split) = Keeps-refl s.db.messages

-- However the awaited calls of receipts interleave, no message is lost, added, moved or changed in its
-- id, conversation, sender, text or time, and none that was delivered or read becomes `sent` again.
pub Reach-Keeps :
    {m : Mongo} {db : Db} {s : Service} → Reach m db s → Keeps db.messages s.db.messages
Reach-Keeps {db = db} here = Keeps-refl db.messages
Reach-Keeps {db = db} (later {s = s} {t = t} r step) =
    Keeps-trans db.messages s.db.messages t.db.messages (Reach-Keeps r) (Step-Keeps step)
