-- ===== src/Conversations/Unread.antt =====
-- listConversations of src/services/conversation.service.ts: which conversations it lists, in which
-- order, and with which unread counts.
use mathlib.Core.Option
use react_websocket_chat.Prelude.{
  ℕ, String, ◌≡◌, refl, ◌∙◌, Bool, true, ◌&&◌, not, List, [], ◌∷◌, map, some, arith, find, count,
  lookup, count-filter, All, Below, Descending, ◌==◌, ==_iff, ==_refl,
}
use react_websocket_chat.Exec.{ok}
use react_websocket_chat.Model.{ObjectId, Conversation, Message, is_read, Db, includes}
use react_websocket_chat.Mongo.{Mongo}
use react_websocket_chat.Conversations.{
  ConversationWithUnreadCount, is_unread_by, counts_by_id, or_zero, list_id, list_conversations,
}
use react_websocket_chat.Conversations.Membership.{str_eq-to_string}

-- A message of the conversation, from somebody else, that is not read.
abbrev pub is_unread_in : ObjectId → ObjectId → Message → Bool
is_unread_in cid user_id msg =
    msg.conversation_id == cid && (not (msg.sender_id == user_id) && not (is_read msg.status))

lookup-counts_by_id :
    (m : Mongo) (cid : ObjectId) (groups : List (ObjectId × ℕ))
    → lookup (m.to_string cid) (counts_by_id m groups)
      ≡ Option.map (λ entry. entry.1) (find (λ entry. entry.0 == cid) groups)
unfolding lookup
lookup-counts_by_id m cid [] = refl
lookup-counts_by_id m cid ((id, n) ∷ groups) =
    ground (arith, str_eq-to_string m id cid, lookup-counts_by_id m cid groups)

count-unread :
    (user_id : ObjectId) (cids : List ObjectId) (cid : ObjectId) (msgs : List Message)
    → includes cid cids ≡ true
    → count (λ msg. is_unread_by user_id cids msg && msg.conversation_id == cid) msgs
      ≡ count (is_unread_in cid user_id) msgs
unfolding is_unread_by
count-unread user_id cids cid [] h = refl
count-unread user_id cids cid (msg ∷ msgs) h =
    ground (arith, count-unread user_id cids cid msgs h, ==_iff msg.conversation_id cid)

-- The count that the Map gives a listed conversation.
unread_lem :
    (m : Mongo) (user_id : ObjectId) (cids : List ObjectId) (cid : ObjectId) (msgs : List Message)
    → includes cid cids ≡ true
    → or_zero (
        lookup (m.to_string cid) (
          counts_by_id m
            (m.group_count (is_unread_by user_id cids) (λ msg. msg.conversation_id) msgs)))
      ≡ count (is_unread_in cid user_id) msgs
unread_lem m user_id cids cid msgs h =
    rw
      (
        lookup-counts_by_id m cid
            (m.group_count (is_unread_by user_id cids) (λ msg. msg.conversation_id) msgs),
        m.group_count_lem (is_unread_by user_id cids) (λ msg. msg.conversation_id) msgs cid,
        count-unread user_id cids cid msgs h,
      )
      (ground arith)

abbrev entry :
    Mongo → ObjectId → List ObjectId → List Message → Conversation → ConversationWithUnreadCount
entry m user_id cids msgs c = record {
  conversation = c;
  unread_count = or_zero (
      lookup (m.to_string c.id) (
        counts_by_id m
          (m.group_count (is_unread_by user_id cids) (λ msg. msg.conversation_id) msgs)));
}

-- The entry's count is the number of messages that its conversation holds unread.
abbrev pub CountsUnread : ObjectId → List Message → ConversationWithUnreadCount → Type 0
CountsUnread user_id msgs e = e.unread_count ≡ count (is_unread_in e.conversation.id user_id) msgs

entries_count :
    (m : Mongo) (user_id : ObjectId) (cids : List ObjectId) (msgs : List Message)
    (cs : List Conversation)
    → All (λ c. includes c.id cids ≡ true) cs
    → All (CountsUnread user_id msgs) (map (entry m user_id cids msgs) cs)
entries_count m user_id cids msgs [] h = tt
entries_count m user_id cids msgs (c ∷ cs) (hc, h) =
    (unread_lem m user_id cids c.id msgs hc, entries_count m user_id cids msgs cs h)

All-weaken :
    (id : ObjectId) (ids : List ObjectId) (cs : List Conversation)
    → All (λ c. includes c.id ids ≡ true) cs
    → All (λ c. includes c.id (id ∷ ids) ≡ true) cs
All-weaken id ids [] h = tt
All-weaken id ids (c ∷ cs) (hc, h) = (ground arith, All-weaken id ids cs h)

All-own_ids : (cs : List Conversation) → All (λ c. includes c.id (map list_id cs) ≡ true) cs
All-own_ids [] = tt
All-own_ids (c ∷ cs) = (rw ==_refl refl, All-weaken c.id (map list_id cs) cs (All-own_ids cs))

module _ (m : Mongo) (user_id : ObjectId) (cids : List ObjectId) (msgs : List Message) where
  entries-Below :
      (bound : ℕ) (cs : List Conversation)
      → Below (λ c. c.updated_at) bound cs
      → Below
          (λ (e : ConversationWithUnreadCount). e.conversation.updated_at)
          bound
          (map (entry m user_id cids msgs) cs)
  entries-Below bound [] h = tt
  entries-Below bound (c ∷ cs) (hc, h) = (hc, entries-Below bound cs h)

  entries-Descending :
      (cs : List Conversation)
      → Descending (λ c. c.updated_at) cs
      → Descending
          (λ (e : ConversationWithUnreadCount). e.conversation.updated_at)
          (map (entry m user_id cids msgs) cs)
  entries-Descending [] h = tt
  entries-Descending (c ∷ cs) (hc, h) = (entries-Below c.updated_at cs hc, entries-Descending cs h)

  count-entries :
      (p : Conversation → Bool) (cs : List Conversation)
      → count
          (λ (e : ConversationWithUnreadCount). p e.conversation)
          (map (entry m user_id cids msgs) cs)
        ≡ count p cs
  count-entries p [] = refl
  count-entries p (c ∷ cs) = ground (arith, count-entries p cs)

-- What a listing shows a user.
pub record IsListing (db : Db) (user_id : ObjectId) (entries : List ConversationWithUnreadCount)
    : Type 0 where
  -- the user's conversations and no others, each as often as the database holds it
  pub complete :
      (p : Conversation → Bool)
      → count (λ (e : ConversationWithUnreadCount). p e.conversation) entries
        ≡ count (λ c. includes user_id c.members && p c) db.conversations
  -- the most recently active first
  pub ordered : Descending (λ (e : ConversationWithUnreadCount). e.conversation.updated_at) entries
  -- with the number of messages of others that are not read
  pub counted : All (CountsUnread user_id db.messages) entries

-- A listing succeeds, with exactly the conversations that have the user as a member, the most
-- recently active first, each with the number of its messages from others that are not `read`.
pub list_conversations-IsListing :
    (m : Mongo) (user_id : String) (u : ObjectId) (db : Db)
    → m.parse user_id ≡ some u
    → (entries : List ConversationWithUnreadCount) × (list_conversations m user_id db ≡ ok entries)
      × IsListing db u entries
unfolding list_conversations
list_conversations-IsListing m user_id u db parsed = (
  map (entry m u (map list_id cs) db.messages) cs,
  rw parsed refl,
  record {
    complete = λ p.
        count-entries m u (map list_id cs) db.messages p cs
        ∙ m.conversations.count-sort_desc (λ c. c.updated_at) p found
        ∙ rw (m.conversations.find_many_lem (λ c. includes u c.members) db.conversations)
            (count-filter p (λ c. includes u c.members) db.conversations);
    ordered =
        entries-Descending m u (map list_id cs) db.messages cs
          (m.conversations.sort_desc-Descending (λ c. c.updated_at) found);
    counted = entries_count m u (map list_id cs) db.messages cs (All-own_ids cs);
  },
)
  where
    found : List Conversation
    found = m.conversations.find_many (λ c. includes u c.members) db.conversations

    cs : List Conversation
    cs = m.conversations.sort_desc (λ c. c.updated_at) found
