-- ===== src/Conversations.antt =====
-- src/services/conversation.service.ts. A query object is the test that it states of a document.
pub mod Membership
pub mod Create
pub mod Unread
pub mod History
pub mod Members
use react_websocket_chat.Prelude.{
  ℕ, ◌+◌, String, Bool, false, ◌&&◌, not, List, [], ◌∷◌, map, Option, none, some, is_some, all, any,
  take, length, ltb, lookup, ◌==◌, str_eq, if◌then◌else◌,
}
use mathlib.Core.Option
use react_websocket_chat.Sanitize.{Text, trim}
use react_websocket_chat.Exec.{
  app_error, Result, ok, err, and_then, validation_error, Exec, continue, pure, query, ◌>>=◌,
}
use react_websocket_chat.Model.{
  ObjectId, ConversationType, is_one_to_one, Conversation, Message, is_read, Db, includes,
}
use react_websocket_chat.Mongo.{Mongo, cast}

-- CreateConversationInput, the parsed request body
pub record CreateConversationInput : Type 0 where
  pub type : ConversationType
  pub name : Option Text
  pub members : List String

-- What the server makes up for a new document: its `_id` and the time.
pub record Stamp : Type 0 where
  pub new_id : ObjectId
  pub now : ℕ

-- Array.from(new Set(xs)): each text at its first place.
unfoldable pub unique_from : List String → List String → List String
unique_from seen [] = []
unique_from seen (x ∷ xs) =
    if any (λ y. str_eq y x) seen then unique_from seen xs else x ∷ unique_from (x ∷ seen) xs

unfoldable pub unique : List String → List String
unfolding unique_from
unique xs = unique_from [] xs

unfoldable pub cast_all : Mongo → List String → Result (List ObjectId)
cast_all m [] = ok []
cast_all m (x ∷ xs) = and_then (cast m x) (λ id. and_then (cast_all m xs) (λ ids. ok (id ∷ ids)))

-- { type: '1:1', members: { $all: ids, $size: ids.length } }
unfoldable pub is_pair_of : List ObjectId → Conversation → Bool
is_pair_of ids c =
    is_one_to_one c.type
    && (all (λ id. includes id c.members) ids && length c.members == length ids)

-- A value that the schema cannot cast fails the document's validation.
abbrev pub or_validation_error {ℓ} : {A : Type ℓ} → Result A → Result A
or_validation_error (ok a) = ok a
or_validation_error (err e) = err validation_error

-- Conversation.create({ type, name, members })
unfoldable pub create_document :
    Mongo → Stamp → CreateConversationInput → List String → Exec Db Conversation
create_document m stamp input member_ids db =
    continue (or_validation_error (cast_all m member_ids))
      (λ ids db'.
        let c : Conversation = record {
          id = stamp.new_id;
          type = input.type;
          name = Option.map trim input.name;
          members = ids;
          last_message = none;
          created_at = stamp.now;
          updated_at = stamp.now;
        } in
        (ok c, record db' { conversations = m.conversations.create c db'.conversations }))
      db

unfoldable pub find_pair : Mongo → List String → Db → Result (Option Conversation)
unfolding is_pair_of
find_pair m member_ids db =
    and_then (cast_all m member_ids)
      (λ ids. ok (m.conversations.find_one (is_pair_of ids) db.conversations))

-- if (existing) return existing; and the creation below it
abbrev pub reuse_or_create :
    Mongo
    → Stamp
    → CreateConversationInput
    → List String
    → Option Conversation
    → Exec Db Conversation
reuse_or_create m stamp input member_ids (some existing) = pure existing
reuse_or_create m stamp input member_ids none = create_document m stamp input member_ids

unfoldable pub create_conversation :
    Mongo → Stamp → String → CreateConversationInput → Exec Db Conversation
unfolding find_pair create_document unique
create_conversation m stamp current_user_id input =
    let member_ids = unique (current_user_id ∷ input.members) in
    if is_one_to_one input.type
    then query (find_pair m member_ids) >>= reuse_or_create m stamp input member_ids
    else create_document m stamp input member_ids

-- { _id: conversationId, members: userId }
unfoldable pub is_member_of : ObjectId → ObjectId → Conversation → Bool
is_member_of conversation_id user_id c = c.id == conversation_id && includes user_id c.members

-- Conversation.findOne of that query, its strings cast
unfoldable pub find_membership : Mongo → String → String → Db → Result (Option Conversation)
unfolding is_member_of
find_membership m conversation_id user_id db = and_then (cast m conversation_id) λ cid.
    and_then (cast m user_id)
      λ uid. ok (m.conversations.find_one (is_member_of cid uid) db.conversations)

abbrev pub or_not_found {ℓ} : {A : Type ℓ} → String → Option A → Result A
or_not_found message (some a) = ok a
or_not_found message none = err (app_error (record { message = message; status_code = 404 }))

unfoldable pub assert_membership : Mongo → String → String → Db → Result Conversation
unfolding find_membership
assert_membership m conversation_id user_id db =
    if m.is_valid conversation_id
    then and_then (find_membership m conversation_id user_id db)
        (or_not_found "Conversation not found")
    else err (app_error (record { message = "Invalid conversation ID"; status_code = 400 }))

unfoldable pub is_conversation_member : Mongo → String → String → Db → Result Bool
unfolding find_membership
is_conversation_member m conversation_id user_id db =
    if m.is_valid conversation_id
    then and_then (find_membership m conversation_id user_id db) (λ found. ok (is_some found))
    else ok false

-- What listConversations returns of each conversation, before `lastMessage` and `members` are
-- populated.
pub record ConversationWithUnreadCount : Type 0 where
  pub conversation : Conversation
  pub unread_count : ℕ

-- The $match of the unread counts.
unfoldable pub is_unread_by : ObjectId → List ObjectId → Message → Bool
is_unread_by user_id conversation_ids msg =
    includes msg.conversation_id conversation_ids
    && (not (msg.sender_id == user_id) && not (is_read msg.status))

-- The entries of the Map, by the text of the conversation's id.
abbrev pub counts_by_id : Mongo → List (ObjectId × ℕ) → List (String × ℕ)
counts_by_id m = map (λ entry. (m.to_string entry.0, entry.1))

abbrev pub or_zero : Option ℕ → ℕ
or_zero none = 0
or_zero (some n) = n

abbrev pub list_id : Conversation → ObjectId
list_id c = c.id

-- The early return for no conversations is what the map gives for them.
unfoldable pub list_conversations : Mongo → String → Db → Result (List ConversationWithUnreadCount)
unfolding is_unread_by
list_conversations m user_id db = and_then (cast m user_id) λ uid.
    let conversations : List Conversation =
      m.conversations.sort_desc (λ c. c.updated_at)
        (m.conversations.find_many (λ c. includes uid c.members) db.conversations) in
    let unread_counts =
      m.group_count (is_unread_by uid (map list_id conversations)) (λ msg. msg.conversation_id)
        db.messages in
    ok (
      map
        (λ c. record {
          conversation = c;
          unread_count = or_zero (lookup (m.to_string c.id) (counts_by_id m unread_counts));
        })
        conversations)

pub record PaginatedMessages : Type 0 where
  pub messages : List Message
  pub has_more : Bool
  pub next_cursor : Option ℕ

-- { conversationId, createdAt: { $lt: before } }
unfoldable pub is_in_history : ObjectId → Option ℕ → Message → Bool
is_in_history cid none msg = msg.conversation_id == cid
is_in_history cid (some before) msg = msg.conversation_id == cid && ltb msg.created_at before

-- page[page.length - 1].createdAt; the page is not empty, as the query's schema wants `limit >= 1`.
unfoldable pub last_created_at : List Message → Option ℕ
last_created_at [] = none
last_created_at (msg ∷ []) = some msg.created_at
last_created_at (msg ∷ next ∷ rest) = last_created_at (next ∷ rest)

unfoldable pub get_message_history : Mongo → String → ℕ → Option ℕ → Db → Result PaginatedMessages
unfolding is_in_history last_created_at
get_message_history m conversation_id limit before db = and_then (cast m conversation_id) λ cid.
    let messages : List Message = take (limit + 1) (
      m.messages.sort_desc (λ msg. msg.created_at)
        (m.messages.find_many (is_in_history cid before) db.messages)) in
    let has_more = ltb limit (length messages) in
    let page = if has_more then take limit messages else messages in
    ok (record {
      messages = page;
      has_more = has_more;
      next_cursor = if has_more then last_created_at page else none;
    })
