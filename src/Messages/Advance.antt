-- ===== src/Messages/Advance.antt =====
-- How a receipt may change a message (markMessagesRead of src/services/message.service.ts).
use native.Mathlib.Nat.{le_refl, le_trans}
use react_websocket_chat.Prelude.{
  ℕ, ◌≤◌, String, ◌≡◌, refl, ◌∙◌, false, List, [], ◌∷◌, map, arith, All, All-of, Bool-cases, inl,
  inr,
}
use react_websocket_chat.Model.{ObjectId, Message, MessageStatus, rank, Db, includes}
use react_websocket_chat.Mongo.{Mongo}
use react_websocket_chat.Conversations.Membership.{is_ok}
use react_websocket_chat.Messages.{mark_messages_read}
use react_websocket_chat.Messages.Marked.{marked, unread_ids}
use react_websocket_chat.Messages.Read.{mark_messages_read-marks}

-- The same message, with a status that is no lower.
pub record Advance (x y : Message) : Type 0 where
  pub id : x.id ≡ y.id
  pub conversation : x.conversation_id ≡ y.conversation_id
  pub sender : x.sender_id ≡ y.sender_id
  pub text : x.text ≡ y.text
  pub created : x.created_at ≡ y.created_at
  pub status : rank x.status ≤ rank y.status

abbrev pub Advances : List Message → List Message → Type 0
Advances [] [] = Unit
Advances (x ∷ xs) (y ∷ ys) = Advance x y × Advances xs ys
Advances _ _ = ⊥

pub Advance-refl : (x : Message) → Advance x x
Advance-refl x = record {
  id = refl;
  conversation = refl;
  sender = refl;
  text = refl;
  created = refl;
  status = le_refl (rank x.status);
}

pub Advances-refl : (xs : List Message) → Advances xs xs
Advances-refl [] = tt
Advances-refl (x ∷ xs) = (Advance-refl x, Advances-refl xs)

pub Advances-trans : (xs ys zs : List Message) → Advances xs ys → Advances ys zs → Advances xs zs
Advances-trans [] [] [] h k = tt
Advances-trans (x ∷ xs) (y ∷ ys) (z ∷ zs) (a, h) (b, k) = (
  record {
    id = a.id ∙ b.id;
    conversation = a.conversation ∙ b.conversation;
    sender = a.sender ∙ b.sender;
    text = a.text ∙ b.text;
    created = a.created ∙ b.created;
    status = le_trans a.status b.status;
  },
  Advances-trans xs ys zs h k,
)
Advances-trans [] [] (z ∷ zs) h k = absurd k
Advances-trans [] (y ∷ ys) zs h k = absurd h
Advances-trans (x ∷ xs) [] zs h k = absurd h
Advances-trans (x ∷ xs) (y ∷ ys) [] h k = absurd k

pub rank-le_read : (s : MessageStatus) → rank s ≤ 2
rank-le_read s = ground arith

pub Advances-map :
    (f : Message → Message) (xs : List Message)
    → All (λ x. Advance x (f x)) xs
    → Advances xs (map f xs)
Advances-map f [] h = tt
Advances-map f (x ∷ xs) (hx, h) = (hx, Advances-map f xs h)

pub marked-Advance : (now : ℕ) (ids : List ObjectId) (x : Message) → Advance x (marked now ids x)
marked-Advance now ids x = elim (Bool-cases (includes x.id ids)) [
  | inl hit ↦ rw hit (record {
    id = refl;
    conversation = refl;
    sender = refl;
    text = refl;
    created = refl;
    status = rank-le_read x.status;
  })
  | inr miss ↦ rw miss (Advance-refl x)
]

-- What a receipt does to the database, whatever it answers.
pub record OnlyAdvances (db db' : Db) : Type 0 where
  pub messages : Advances db.messages db'.messages
  pub conversations : db.conversations ≡ db'.conversations
  pub users : db.users ≡ db'.users

pub read_fails :
    (m : Mongo) (now : ℕ) (conversation_id up_to_message_id user_id : String) (db : Db)
    → is_ok (mark_messages_read m now conversation_id up_to_message_id user_id db).0 ≡ false
    → (mark_messages_read m now conversation_id up_to_message_id user_id db).1 ≡ db
unfolding mark_messages_read
read_fails m now conversation_id up_to_message_id user_id db h = ground arith

-- Whatever markMessagesRead answers, it lowers no status, changes nothing else of a message but its
-- `updatedAt`, and touches neither conversations nor users.
pub mark_messages_read-OnlyAdvances :
    (m : Mongo) (now : ℕ) (conversation_id up_to_message_id user_id : String) (db : Db)
    → OnlyAdvances db (mark_messages_read m now conversation_id up_to_message_id user_id db).1
mark_messages_read-OnlyAdvances m now conversation_id up_to_message_id user_id db =
    elim (Bool-cases
      (is_ok (mark_messages_read m now conversation_id up_to_message_id user_id db).0)) [
        | inr failed ↦
            rw (read_fails m now conversation_id up_to_message_id user_id db failed)
              (record { messages = Advances-refl db.messages; conversations = refl; users = refl })
        | inl done ↦
            let (r, e, _) =
              mark_messages_read-marks m now conversation_id up_to_message_id user_id db done in
            let ids : List ObjectId = unread_ids r.cid r.uid r.up_to.created_at db.messages in
            rw e (record {
              messages =
                  Advances-map (marked now ids) db.messages
                    (All-of _ db.messages (marked-Advance now ids));
              conversations = refl;
              users = refl;
            })
      ]
