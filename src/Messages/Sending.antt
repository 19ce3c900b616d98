-- ===== src/Messages/Sending.antt =====
-- Sends that interleave: createMessage (src/services/message.service.ts) finds the conversation,
-- creates the message and saves the conversation that it found, with an await before each of them in
-- which other sends and receipts run.
pub mod Stays
pub mod Pointers
pub mod Alone
use react_websocket_chat.Prelude.{
  ℕ, String, ◌≡◌, refl, ap, sym, ◌∙◌, Bool, true, List, [], ◌∷◌, ◌++◌, map, Option, none, some,
  arith, any, any-append, All, All-append, All-split, Bool-cases, inl, inr, ◌==◌, ◌&&◌, find,
  find-true, if◌then◌else◌,
}
use react_websocket_chat.Sanitize.{Text}
use react_websocket_chat.Exec.{ok, err, Thrown, continue-ok, ok-injective}
use react_websocket_chat.Model.{
  ObjectId, Conversation, Message, sent, is_sent, Db, message_schema_text,
}
use react_websocket_chat.Mongo.{Mongo, Collection}
use react_websocket_chat.Conversations.{Stamp, is_member_of, find_membership}
use react_websocket_chat.Conversations.Membership.{find_membership_lem}
use react_websocket_chat.Messages.{
  create_document, save_last_message, save_status, advance_to_delivered,
}
use react_websocket_chat.Messages.Advance.{mark_messages_read-OnlyAdvances}
use react_websocket_chat.Messages.Send.{is_member_of-id, bumped}
use react_websocket_chat.Messages.Interleaving.{Service, Step}

-- A send that found its conversation, and one that created its message too.
pub record Found : Type 0 where
  pub conversation : Conversation
  pub conversation_id : ObjectId
  pub sender_id : ObjectId
  pub text : Text

pub record Unsaved : Type 0 where
  pub conversation : Conversation
  pub message : Message

-- The database with the receipts under way, and the sends under way.
pub record Sending : Type 0 where
  pub service : Service
  pub found : List Found
  pub created : List Unsaved

-- The awaited calls of createMessage, and the steps of receipts.
pub data SendStep (m : Mongo) : Sending → Sending → Type 0 where
  find_conversation :
      (s : Sending) (conversation_id sender_id : String) (f : Found)
      → m.parse conversation_id ≡ some f.conversation_id
      → m.parse sender_id ≡ some f.sender_id
      → find_membership m conversation_id sender_id s.service.db ≡ ok (some f.conversation)
      → SendStep m s (record s { found = f ∷ s.found })
  create :
      (s : Sending) (stamp : Stamp) (before after : List Found) (f : Found) (msg : Message)
      (db : Db)
      → s.found ≡ before ++ f ∷ after
      → create_document m stamp f.conversation_id f.sender_id f.text s.service.db ≡ (ok msg, db)
      → SendStep m s (record s {
        service = record s.service { db = db };
        found = before ++ after;
        created = record { conversation = f.conversation; message = msg } ∷ s.created;
      })
  refuse :
      (s : Sending) (stamp : Stamp) (before after : List Found) (f : Found) (e : Thrown) (db : Db)
      → s.found ≡ before ++ f ∷ after
      → create_document m stamp f.conversation_id f.sender_id f.text s.service.db ≡ (err e, db)
      → SendStep m s (record s { found = before ++ after })
  save_conversation :
      (s : Sending) (now : ℕ) (before after : List Unsaved) (w : Unsaved)
      → s.created ≡ before ++ w ∷ after
      → SendStep m s (record s {
        service = record s.service {
          db = save_last_message m now w.conversation.id w.message.id s.service.db;
        };
        created = before ++ after;
      })
  receipt :
      (s : Sending) (service : Service)
      → Step m s.service service
      → SendStep m s (record s { service = service })

pub data SendReach (m : Mongo) (db : Db) : Sending → Type 0 where
  idle :
      SendReach m db
        (record { service = record { db = db; pending = [] }; found = []; created = [] })
  further : {s t : Sending} → SendReach m db s → SendStep m s t → SendReach m db t

-- Some message has this id and this conversation.
abbrev pub has_message : ObjectId → ObjectId → List Message → Bool
has_message cid id = any (λ msg. msg.id == id && msg.conversation_id == cid)

abbrev pub names_own : List Message → ObjectId → Option ObjectId → Bool
names_own msgs cid none = true
names_own msgs cid (some id) = has_message cid id msgs

-- Each `lastMessage` names a stored message of its own conversation.
abbrev pub NamesOwn : List Message → List Conversation → Type 0
NamesOwn msgs = All (λ c. names_own msgs c.id c.last_message ≡ true)
