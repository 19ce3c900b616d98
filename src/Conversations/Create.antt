-- ===== src/Conversations/Create.antt =====
-- createConversation of src/services/conversation.service.ts: a 1:1 conversation is made once.
use mathlib.Core.Option
use mathlib.Core.Path.{fun_ext}
use react_websocket_chat.Prelude.{
  ℕ, String, ◌≡◌, refl, sym, ◌∙◌, Bool, true, ◌||◌, List, [], ◌∷◌, Option, none, some, arith, find,
  all, length, ◌==◌, if◌then◌else◌, ==_refl, Option-cases, inl, inr,
}
use react_websocket_chat.Sanitize.{Text, trim}
use react_websocket_chat.Exec.{Thrown, Result, ok, err, Result-cases}
use react_websocket_chat.Model.{ObjectId, Conversation, one_to_one, is_one_to_one, Db, includes}
use react_websocket_chat.Mongo.{Mongo}
use react_websocket_chat.Mongo.Laws.{find-create}
use react_websocket_chat.Conversations.{
  Stamp, CreateConversationInput, unique, cast_all, is_pair_of, create_conversation,
}
use react_websocket_chat.Conversations.Membership.{str_eq-to_string}

all_mono :
    (p q : ℕ → Bool) (xs : List ℕ)
    → ((x : ℕ) → p x ≡ true → q x ≡ true)
    → all p xs ≡ true
    → all q xs ≡ true
all_mono p q [] h k = refl
all_mono p q (x ∷ xs) h k = ground (arith, h x, all_mono p q xs h)

all-includes_self : (ids : List ObjectId) → all (λ id. includes id ids) ids ≡ true
all-includes_self [] = refl
all-includes_self (x ∷ xs) = rw ==_refl (
    all_mono (λ id. includes id xs) (λ id. x == id || includes id xs) xs (λ id h. ground arith)
      (all-includes_self xs))

-- The document that the service would create.
abbrev pub fresh : Stamp → CreateConversationInput → List ObjectId → Conversation
fresh stamp input ids = record {
  id = stamp.new_id;
  type = input.type;
  name = Option.map trim input.name;
  members = ids;
  last_message = none;
  created_at = stamp.now;
  updated_at = stamp.now;
}

fresh-is_pair_of :
    (stamp : Stamp) (input : CreateConversationInput) (ids : List ObjectId)
    → is_one_to_one input.type ≡ true
    → is_pair_of ids (fresh stamp input ids) ≡ true
unfolding is_pair_of
fresh-is_pair_of stamp input ids pair = rw (pair, all-includes_self ids) (==_refl (length ids))

abbrev found_or_new :
    Mongo
    → Stamp
    → CreateConversationInput
    → List ObjectId
    → Db
    → Option Conversation
    → Result Conversation × Db
found_or_new m stamp input ids db (some c) = (ok c, db)
found_or_new m stamp input ids db none =
    let c : Conversation = fresh stamp input ids in
    (ok c, record db { conversations = m.conversations.create c db.conversations })

abbrev pub member_texts : String → CreateConversationInput → List String
member_texts user_id input = unique (user_id ∷ input.members)

create_pair_lem :
    (m : Mongo) (stamp : Stamp) (user_id : String) (input : CreateConversationInput)
    (ids : List ObjectId) (db : Db)
    → is_one_to_one input.type ≡ true
    → cast_all m (member_texts user_id input) ≡ ok ids
    → create_conversation m stamp user_id input db
      ≡ found_or_new m stamp input ids db (find (is_pair_of ids) db.conversations)
unfolding create_conversation
create_pair_lem m stamp user_id input ids db pair parsed =
    elim (Option-cases (find (is_pair_of ids) db.conversations)) [
      | inl missing ↦
          rw
            (
              pair,
              parsed,
              m.conversations.find_one_lem (is_pair_of ids) db.conversations,
              missing,
              parsed,
            )
            refl
      | inr (c, found) ↦
          rw (pair, parsed, m.conversations.find_one_lem (is_pair_of ids) db.conversations, found)
            refl
    ]

-- After a 1:1 conversation was returned, the query for its members finds it.
found_after :
    (m : Mongo) (stamp : Stamp) (user_id : String) (input : CreateConversationInput)
    (ids : List ObjectId) (db db' : Db) (c : Conversation)
    → is_one_to_one input.type ≡ true
    → cast_all m (member_texts user_id input) ≡ ok ids
    → create_conversation m stamp user_id input db ≡ (ok c, db')
    → find (is_pair_of ids) db'.conversations ≡ some c
found_after m stamp user_id input ids db db' c pair parsed h =
    elim (Option-cases (find (is_pair_of ids) db.conversations)) [
      | inl missing ↦
          let new : Conversation = fresh stamp input ids in
          ground (
            arith,
            rw missing at outcome,
            find-create m.conversations (is_pair_of ids) new db.conversations missing
                (fresh-is_pair_of stamp input ids pair),
          )
      | inr (old, found) ↦ ground (arith, rw found at outcome)
    ]
  where
    outcome :
        found_or_new m stamp input ids db (find (is_pair_of ids) db.conversations) ≡ (ok c, db')
    outcome = sym (create_pair_lem m stamp user_id input ids db pair parsed) ∙ h

create_pair_again :
    (m : Mongo) (stamp stamp' : Stamp) (user_id user_id' : String)
    (input input' : CreateConversationInput) (ids ids' : List ObjectId) (db db' : Db)
    (c : Conversation)
    → is_one_to_one input.type ≡ true
    → is_one_to_one input'.type ≡ true
    → cast_all m (member_texts user_id input) ≡ ok ids
    → cast_all m (member_texts user_id' input') ≡ ok ids'
    → ((x : Conversation) → is_pair_of ids' x ≡ is_pair_of ids x)
    → create_conversation m stamp user_id input db ≡ (ok c, db')
    → create_conversation m stamp' user_id' input' db' ≡ (ok c, db')
create_pair_again m stamp stamp' user_id user_id' input input' ids ids' db db' c pair pair' parsed
      parsed' same h =
    let found : find (is_pair_of ids) db'.conversations ≡ some c =
      found_after m stamp user_id input ids db db' c pair parsed h in
    let found' : find (is_pair_of ids') db'.conversations ≡ some c = rw (fun_ext same) found in
    create_pair_lem m stamp' user_id' input' ids' db' pair' parsed' ∙ rw found'

create_pair_fails :
    (m : Mongo) (stamp : Stamp) (user_id : String) (input : CreateConversationInput) (db : Db)
    → is_one_to_one input.type ≡ true
    → (e : Thrown) → cast_all m (member_texts user_id input) ≡ err e
    → create_conversation m stamp user_id input db ≡ (err e, db)
unfolding create_conversation
create_pair_fails m stamp user_id input db pair e failed = rw (pair, failed) refl

-- A 1:1 request that succeeded is idempotent: repeated by the same user, at any later time and with
-- any fresh id, it returns the same conversation and leaves the database as it is.
pub create_conversation_again :
    (m : Mongo) (stamp stamp' : Stamp) (user_id : String) (input : CreateConversationInput)
    (db db' : Db) (c : Conversation)
    → is_one_to_one input.type ≡ true
    → create_conversation m stamp user_id input db ≡ (ok c, db')
    → create_conversation m stamp' user_id input db' ≡ (ok c, db')
create_conversation_again m stamp stamp' user_id input db db' c pair h =
    elim (Result-cases (cast_all m (member_texts user_id input))) [
      | inr (ids, parsed) ↦
          create_pair_again m stamp stamp' user_id user_id input input ids ids db db' c pair pair
            parsed parsed (λ x. refl) h
      | inl (e, failed) ↦
          absurd (ground (arith, create_pair_fails m stamp user_id input db pair e failed))
    ]

-- A request for a 1:1 conversation with one other user.
abbrev pub pair_with : Mongo → Option Text → ObjectId → CreateConversationInput
pair_with m name other = record { type = one_to_one; name = name; members = m.to_string other ∷ [] }

abbrev pair_ids : ObjectId → ObjectId → List ObjectId
pair_ids a b = if a == b then a ∷ [] else a ∷ b ∷ []

member_texts_of_pair :
    (m : Mongo) (name : Option Text) (a b : ObjectId)
    → cast_all m (member_texts (m.to_string a) (pair_with m name b)) ≡ ok (pair_ids a b)
unfolding unique cast_all
member_texts_of_pair m name a b =
    ground (arith, str_eq-to_string m a b, m.parse-to_string a, m.parse-to_string b)

pair_ids_comm :
    (a b : ObjectId) (c : Conversation) → is_pair_of (pair_ids b a) c ≡ is_pair_of (pair_ids a b) c
unfolding is_pair_of
pair_ids_comm a b c = ground arith

-- Either of two users may open their 1:1 conversation: after one did, the request of the other
-- returns the same conversation and creates nothing.
pub create_conversation_symmetric :
    (m : Mongo) (stamp stamp' : Stamp) (name name' : Option Text) (a b : ObjectId) (db db' : Db)
    (c : Conversation)
    → create_conversation m stamp (m.to_string a) (pair_with m name b) db ≡ (ok c, db')
    → create_conversation m stamp' (m.to_string b) (pair_with m name' a) db' ≡ (ok c, db')
create_conversation_symmetric m stamp stamp' name name' a b db db' c h =
    create_pair_again m stamp stamp' (m.to_string a) (m.to_string b) (pair_with m name b)
      (pair_with m name' a) (pair_ids a b) (pair_ids b a) db db' c refl refl
      (member_texts_of_pair m name a b) (member_texts_of_pair m name' b a) (pair_ids_comm a b) h
