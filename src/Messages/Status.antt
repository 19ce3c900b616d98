-- ===== src/Messages/Status.antt =====
-- The receipts of src/services/message.service.ts only advance a message's status.
use mathlib.Core.Path.{subst}
use react_websocket_chat.Prelude.{
  ℕ, ◌≤◌, String, ◌≡◌, refl, ap, ◌∙◌, true, List, [], ◌∷◌, some, arith, find, find-true, count, All,
  ◌==◌, if◌then◌else◌, ==_iff, Bool-cases, Option-cases, inl, inr,
}
use react_websocket_chat.Exec.{ok, Result-cases}
use react_websocket_chat.Model.{ObjectId, Message, delivered, is_sent, Db}
use react_websocket_chat.Mongo.{Mongo}
use react_websocket_chat.Conversations.{is_conversation_member}
use react_websocket_chat.Messages.{
  mark_message_delivered, mark_messages_read, find_visible_message, advance_to_delivered,
  save_status,
}
use react_websocket_chat.Messages.Advance.{
  Advance, Advances, Advance-refl, Advances-refl, Advances-trans, Advances-map, OnlyAdvances,
  mark_messages_read-OnlyAdvances,
}

-- The unique index that MongoDB keeps on `_id`.
abbrev pub HasUniqueIds : List Message → Type 0
HasUniqueIds msgs = (id : ObjectId) → count (λ msg. msg.id == id) msgs ≤ 1

none_with_id :
    (id : ObjectId) (msgs : List Message)
    → count (λ msg. msg.id == id) msgs ≡ 0
    → All (λ x. (x.id == id) ≡ true → is_sent x.status ≡ true) msgs
none_with_id id [] h = tt
none_with_id id (x ∷ msgs) h = (λ e. ground arith, none_with_id id msgs (ground arith))

-- Every message with the id of the one that is found is that one, so it is `sent` too.
found_is_only :
    (id : ObjectId) (msgs : List Message) (msg : Message)
    → count (λ x. x.id == id) msgs ≤ 1
    → find (λ x. x.id == id) msgs ≡ some msg
    → is_sent msg.status ≡ true
    → All (λ x. (x.id == id) ≡ true → is_sent x.status ≡ true) msgs
found_is_only id [] msg unique found fresh = tt
found_is_only id (x ∷ msgs) msg unique found fresh = elim (Bool-cases (x.id == id)) [
  | inl hit ↦ (λ e. ground arith, none_with_id id msgs (ground arith))
  | inr miss ↦ (λ e. absurd (cc), found_is_only id msgs msg (ground arith) (ground arith) fresh)
]

abbrev delivered_at : ℕ → ObjectId → Message → Message
delivered_at now id x = if x.id == id then record x { status = delivered; updated_at = now } else x

delivered_at-Advance :
    (now id : ℕ) (msgs : List Message)
    → All (λ x. (x.id == id) ≡ true → is_sent x.status ≡ true) msgs
    → All (λ x. Advance x (delivered_at now id x)) msgs
delivered_at-Advance now id [] h = tt
delivered_at-Advance now id (x ∷ msgs) (hx, h) = (
  elim (Bool-cases (x.id == id)) [
    | inl hit ↦ rw hit (record {
      id = refl;
      conversation = refl;
      sender = refl;
      text = refl;
      created = refl;
      status = ground (arith, hx hit);
    })
    | inr miss ↦ rw miss (Advance-refl x)
  ],
  delivered_at-Advance now id msgs h,
)

-- A message that its caller may see: it is stored, and the caller is a member of its conversation.
pub record Visible (m : Mongo) (message_id user_id : String) (db : Db) (msg : Message)
    : Type 0 where
  pub id : ObjectId
  pub parsed : m.parse message_id ≡ some id
  pub found : find (λ x. x.id == id) db.messages ≡ some msg
  pub member : is_conversation_member m (m.to_string msg.conversation_id) user_id db ≡ ok true

pub find_visible_message-Visible :
    (m : Mongo) (message_id user_id : String) (db : Db) (msg : Message)
    → find_visible_message m message_id user_id db ≡ ok msg
    → Visible m message_id user_id db msg
unfolding find_visible_message
find_visible_message-Visible m message_id user_id db msg h =
    elim (Option-cases (m.parse message_id)) [
      | inl unparsed ↦ absurd (ground arith)
      | inr (id, parsed) ↦ elim (Option-cases (find (λ x. x.id == id) db.messages)) [
        | inl missing ↦
            absurd (ground (arith, m.messages.find_one_lem (λ x. x.id == id) db.messages))
        | inr (other, found) ↦
            let one = m.messages.find_one_lem (λ x. x.id == id) db.messages in
            let member : is_conversation_member m (m.to_string other.conversation_id) user_id db
                ≡ ok true =
              ground arith in
            let same : other ≡ msg = ground arith in
            record {
              id = id;
              parsed = parsed;
              found = found ∙ ap some same;
              member =
                  subst
                    (λ (x : Message).
                      is_conversation_member m (m.to_string x.conversation_id) user_id db ≡ ok true)
                    same member;
            }
      ]
    ]

abbrev unchanged : (db : Db) → OnlyAdvances db db
unchanged db = record { messages = Advances-refl db.messages; conversations = refl; users = refl }

delivered-OnlyAdvances :
    (m : Mongo) (now id : ℕ) (db : Db) (msg : Message)
    → HasUniqueIds db.messages
    → find (λ x. x.id == id) db.messages ≡ some msg
    → OnlyAdvances db (advance_to_delivered m now msg db).1
unfolding advance_to_delivered save_status
delivered-OnlyAdvances m now id db msg unique found = elim (Bool-cases (is_sent msg.status)) [
  | inr later ↦ rw later (unchanged db)
  | inl fresh ↦
      let same : msg.id ≡ id =
        (==_iff msg.id id).0 (find-true (λ x. x.id == id) db.messages msg found) in
      rw
        (
          fresh,
          same,
          m.messages.update_lem (λ x. x.id == id)
              (λ x. record x { status = delivered; updated_at = now }) db.messages,
        )
        (record {
          messages = Advances-map (delivered_at now id) db.messages (
              delivered_at-Advance now id db.messages
                (found_is_only id db.messages msg (unique id) found fresh));
          conversations = refl;
          users = refl;
        })
]

-- Whatever markMessageDelivered answers, it lowers no status: a message that is already `read`
-- stays so. It changes nothing else of a message but its `updatedAt`, and touches neither
-- conversations nor users. Message ids are unique, as in MongoDB.
pub mark_message_delivered-OnlyAdvances :
    (m : Mongo) (now : ℕ) (message_id user_id : String) (db : Db)
    → HasUniqueIds db.messages
    → OnlyAdvances db (mark_message_delivered m now message_id user_id db).1
unfolding mark_message_delivered
mark_message_delivered-OnlyAdvances m now message_id user_id db unique =
    elim (Bool-cases (m.is_valid message_id)) [
      | inr invalid ↦ rw invalid (unchanged db)
      | inl valid ↦ elim (Result-cases (find_visible_message m message_id user_id db)) [
        | inl (e, hidden) ↦ rw (valid, hidden) (unchanged db)
        | inr (msg, shown) ↦
            let v = find_visible_message-Visible m message_id user_id db msg shown in
            rw (valid, shown) (delivered-OnlyAdvances m now v.id db msg unique v.found)
      ]
    ]

pub data Receipt : Type 0 where
  delivered_receipt : (now : ℕ) → (message_id user_id : String) → Receipt
  read_receipt : (now : ℕ) → (conversation_id up_to_message_id user_id : String) → Receipt

-- The database after one receipt, and after a sequence of them, whatever they answer.
pub receive : Mongo → Receipt → Db → Db
receive m (delivered_receipt now message_id user_id) db =
    (mark_message_delivered m now message_id user_id db).1
receive m (read_receipt now conversation_id up_to_message_id user_id) db =
    (mark_messages_read m now conversation_id up_to_message_id user_id db).1

pub receive_all : Mongo → List Receipt → Db → Db
receive_all m [] db = db
receive_all m (r ∷ rs) db = receive_all m rs (receive m r db)

count-Advances :
    (id : ObjectId) (xs ys : List Message)
    → Advances xs ys
    → count (λ x. x.id == id) xs ≡ count (λ x. x.id == id) ys
count-Advances id [] [] h = refl
count-Advances id [] (y ∷ ys) h = absurd h
count-Advances id (x ∷ xs) [] h = absurd h
count-Advances id (x ∷ xs) (y ∷ ys) (a, h) = rw (a.id, count-Advances id xs ys h)

receive-OnlyAdvances :
    (m : Mongo) (r : Receipt) (db : Db)
    → HasUniqueIds db.messages
    → OnlyAdvances db (receive m r db)
unfolding receive
receive-OnlyAdvances m (delivered_receipt now message_id user_id) db unique =
    mark_message_delivered-OnlyAdvances m now message_id user_id db unique
receive-OnlyAdvances m (read_receipt now conversation_id up_to_message_id user_id) db unique =
    mark_messages_read-OnlyAdvances m now conversation_id up_to_message_id user_id db

-- Over any sequence of receipts by any callers, valid or not, taken one after the other, the status
-- of every message only advances, and nothing else changes but its `updatedAt`. Message ids are
-- unique, as in MongoDB.
pub receive_all-OnlyAdvances :
    (m : Mongo) (rs : List Receipt) (db : Db)
    → HasUniqueIds db.messages
    → OnlyAdvances db (receive_all m rs db)
unfolding receive_all
receive_all-OnlyAdvances m [] db unique = unchanged db
receive_all-OnlyAdvances m (r ∷ rs) db unique =
    let first = receive-OnlyAdvances m r db unique in
    let later = receive_all-OnlyAdvances m rs (receive m r db) (λ id.
      rw (← count-Advances id db.messages (receive m r db).messages first.messages) (unique id)) in
    record {
      messages = Advances-trans _ _ _ first.messages later.messages;
      conversations = first.conversations ∙ later.conversations;
      users = first.users ∙ later.users;
    }
