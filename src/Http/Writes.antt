-- ===== src/Http/Writes.antt =====
-- The two handlers over HTTP that write, and how their failures leave the database
-- (src/controllers/auth.controller.ts, src/controllers/conversation.controller.ts).
use react_websocket_chat.Prelude.{
  ℕ, ◌≤◌, ◌<◌, String, ◌≡◌, refl, Bool, true, false, List, ◌∷◌, Option, none, some, arith, inl, inr,
  Bool-cases,
}
use react_websocket_chat.Exec.{continue, Thrown, Result, Result-cases, ok, err}
use react_websocket_chat.Model.{User, Conversation, Db, is_one_to_one}
use react_websocket_chat.Mongo.{Mongo}
use react_websocket_chat.Conversations.{
  Stamp, CreateConversationInput, unique, cast_all, or_validation_error, find_pair, reuse_or_create,
  create_document, create_conversation,
}
use react_websocket_chat.Conversations.Members.{KeepsMembers, create-KeepsMembers}
use react_websocket_chat.Server.{JwtPayload}
use react_websocket_chat.Auth.{
  Crypto, SignupInput, AuthResult, new_user, find_taken, refuse_taken, create_user, issue, signup,
}
use react_websocket_chat.Auth.Unique.{
  HasUniqueNames, create_user_atomic, create_user-HasUniqueNames,
}
use react_websocket_chat.Http.{Response, answered, create_conversation_handler, conversation}
use react_websocket_chat.Http.Accounts.{account_response, signup_handler}
use react_websocket_chat.Http.App.{Handler, passed, auth_rate_limiter}

-- What a handler does: it keeps the names unique and the members of the conversations, it touches no
-- message, and it writes only if it succeeds.
pub record IsSafe (db : Db) (x : Response × Db) : Type 0 where
  pub members : KeepsMembers db.conversations x.1.conversations
  pub same_messages : x.1.messages ≡ db.messages
  pub unique_names : HasUniqueNames db.users → HasUniqueNames x.1.users
  pub atomic : 400 ≤ x.0.status → x.1 ≡ db

pub unchanged : (db : Db) (response : Response) → IsSafe db (response, db)
unchanged db response = record {
  members = λ cid uid h. h;
  same_messages = refl;
  unique_names = λ h. h;
  atomic = λ h. refl;
}

pub passed-IsSafe :
    {A : Type 0} (r : Result A) (next : A → Handler) (db : Db)
    → ((a : A) → IsSafe db (next a db))
    → IsSafe db (passed r next db)
passed-IsSafe (ok a) next db h = h a
passed-IsSafe (err e) next db h = unchanged db _

pub limited-IsSafe :
    (is_limited : Bool) (next : Handler) (db : Db)
    → IsSafe db (next db)
    → IsSafe db (auth_rate_limiter is_limited next db)
limited-IsSafe true next db h = unchanged db _
limited-IsSafe false next db h = h

-- A handler that only reads.
pub query-IsSafe :
    {A : Type 0} (r : Result A) (response : A → Response) (db : Db)
    → IsSafe db (answered (λ s. continue r (λ a s'. (ok (response a), s')) s) db)
query-IsSafe (ok a) response db = unchanged db _
query-IsSafe (err e) response db = unchanged db _

-- The same of a service.
pub record IsSafeService {A : Type 0} (db : Db) (x : Result A × Db) : Type 0 where
  pub members : KeepsMembers db.conversations x.1.conversations
  pub same_messages : x.1.messages ≡ db.messages
  pub unique_names : HasUniqueNames db.users → HasUniqueNames x.1.users
  pub atomic : (e : Thrown) → x.0 ≡ err e → x.1 ≡ db

untouched : {A : Type 0} (db : Db) (r : Result A) → IsSafeService db (r, db)
untouched db r = record {
  members = λ cid uid h. h;
  same_messages = refl;
  unique_names = λ h. h;
  atomic = λ e h. refl;
}

pub answered-IsSafe :
    {A : Type 0} (r : Result A) (response : A → Response) (db db' : Db)
    → ((a : A) → (response a).status < 400)
    → IsSafeService db (r, db')
    → IsSafe db (answered (λ _. continue r (λ a s'. (ok (response a), s')) db') db)
answered-IsSafe (ok a) response db db' small h = record {
  members = h.members;
  same_messages = h.same_messages;
  unique_names = h.unique_names;
  atomic = λ big. absurd (ground (arith, small a, big));
}
answered-IsSafe (err e) response db db' small h = record {
  members = h.members;
  same_messages = h.same_messages;
  unique_names = h.unique_names;
  atomic = λ big. h.atomic e refl;
}

pub create_document-IsSafeService :
    (m : Mongo) (stamp : Stamp) (input : CreateConversationInput) (ids : List String) (db : Db)
    → IsSafeService db (create_document m stamp input ids db)
unfolding create_document
create_document-IsSafeService m stamp input ids db =
    elim (Result-cases (or_validation_error (cast_all m ids))) [
      | inl (e, failed) ↦ rw failed (untouched db _)
      | inr (c, done) ↦ rw done (record {
        members = create-KeepsMembers m.conversations _ db.conversations;
        same_messages = refl;
        unique_names = λ h. h;
        atomic = λ e' h. cc;
      })
    ]

pub reuse_or_create-IsSafeService :
    (m : Mongo) (stamp : Stamp) (input : CreateConversationInput) (ids : List String)
    (found : Result (Option Conversation)) (db : Db)
    → IsSafeService db (continue found (reuse_or_create m stamp input ids) db)
reuse_or_create-IsSafeService m stamp input ids (err e) db = untouched db _
reuse_or_create-IsSafeService m stamp input ids (ok (some c)) db = untouched db _
reuse_or_create-IsSafeService m stamp input ids (ok none) db =
    create_document-IsSafeService m stamp input ids db

pub create_conversation-IsSafeService :
    (m : Mongo) (stamp : Stamp) (user_id : String) (input : CreateConversationInput) (db : Db)
    → IsSafeService db (create_conversation m stamp user_id input db)
unfolding create_conversation
create_conversation-IsSafeService m stamp user_id input db =
    let ids : List String = unique (user_id ∷ input.members) in
    elim (Bool-cases (is_one_to_one input.type)) [
      | inl pair ↦ rw pair (reuse_or_create-IsSafeService m stamp input ids (find_pair m ids db) db)
      | inr group ↦ rw group (create_document-IsSafeService m stamp input ids db)
    ]

create_user-same :
    (m : Mongo) (user : User) (db : Db)
    → let db' = (create_user m user db).1 in
      (db'.conversations ≡ db.conversations) × (db'.messages ≡ db.messages)
unfolding create_user
create_user-same m user db = ground arith

pub create_user-IsSafeService :
    (m : Mongo) (user : User) (f : User → AuthResult) (db : Db)
    → IsSafeService db
        (continue (create_user m user db).0 (λ u s. (ok (f u), s)) (create_user m user db).1)
create_user-IsSafeService m user f db = elim (Result-cases (create_user m user db).0) [
  | inl (e, failed) ↦ rw failed (record {
    members = λ cid uid h. rw (create_user-same m user db).0 h;
    same_messages = (create_user-same m user db).1;
    unique_names = create_user-HasUniqueNames m user db;
    atomic = λ e' h. create_user_atomic m user db e failed;
  })
  | inr (u, done) ↦ rw done (record {
    members = λ cid uid h. rw (create_user-same m user db).0 h;
    same_messages = (create_user-same m user db).1;
    unique_names = create_user-HasUniqueNames m user db;
    atomic = λ e' h. cc;
  })
]

pub signup-IsSafeService :
    (m : Mongo) (lib : Crypto) (stamp : Stamp) (salt : ℕ) (input : SignupInput) (db : Db)
    → IsSafeService db (signup m lib stamp salt input db)
unfolding signup
signup-IsSafeService m lib stamp salt input db =
    elim (Result-cases (refuse_taken input (find_taken m lib input db))) [
      | inl (e, taken) ↦ rw taken (untouched db _)
      | inr (_, free) ↦ rw free (
          create_user-IsSafeService m
            (new_user lib stamp input.username input.email (lib.hash salt input.password))
            (issue m lib stamp.now) db)
    ]

pub signup_handler-IsSafe :
    (m : Mongo) (lib : Crypto) (stamp : Stamp) (salt : ℕ) (input : SignupInput) (db : Db)
    → IsSafe db (signup_handler m lib stamp salt input db)
unfolding signup_handler
signup_handler-IsSafe m lib stamp salt input db =
    let (r, db') = signup m lib stamp salt input db in
    answered-IsSafe r (account_response m 201) db db' (λ a. omega arith)
      (signup-IsSafeService m lib stamp salt input db)

pub create_conversation_handler-IsSafe :
    (m : Mongo) (stamp : Stamp) (user : Option JwtPayload) (input : CreateConversationInput)
    (db : Db)
    → IsSafe db (create_conversation_handler m stamp user input db)
unfolding create_conversation_handler
create_conversation_handler-IsSafe m stamp none input db = unchanged db _
create_conversation_handler-IsSafe m stamp (some caller) input db =
    let (r, db') = create_conversation m stamp caller.user_id input db in
    answered-IsSafe r (λ c. record { status = 201; body = conversation c }) db db'
      (λ a. omega arith) (create_conversation-IsSafeService m stamp caller.user_id input db)
