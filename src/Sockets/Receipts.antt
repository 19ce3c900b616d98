-- ===== src/Sockets/Receipts.antt =====
-- What `message:read` and `message:delivered` do on each of their branches
-- (src/sockets/handlers/receipt.handler.ts).
use react_websocket_chat.Prelude.{
  ℕ, String, ◌≡◌, refl, ap, List, [], ◌∷◌, ◌++◌, Bool-cases, arith, length, ltb, map, inl, inr, ◌⊎◌,
  if◌then◌else◌,
}
use react_websocket_chat.Exec.{
  Thrown, app_error, zod_error, cast_error, validation_error, duplicate_key, bad_query, Result, ok,
  err, Result-cases,
}
use react_websocket_chat.Model.{Db}
use react_websocket_chat.Mongo.{Mongo}
use react_websocket_chat.Conversations.Membership.{is_ok}
use react_websocket_chat.Messages.{ReadResult, mark_messages_read}
use react_websocket_chat.Messages.Advance.{read_fails}
use react_websocket_chat.Messages.Marks.{Marks, mark_messages_read-Marks}
use react_websocket_chat.Validators.{MessageReadPayload, parse_message_read, object_id}
use react_websocket_chat.Server.{
  AckMessage, text, validation_messages, failure, issue_message, failed_receipt, Socket, Call,
  message_read, success, emit_room, ack, Server,
}
use react_websocket_chat.Sockets.{on_message_read}
use react_websocket_chat.Sockets.Send.{IsTurnedDown, ++_assoc}

-- The failure that is acknowledged for an exception.
abbrev pub explained_receipt : String → Thrown → AckMessage
explained_receipt other (zod_error issues) = validation_messages (map issue_message issues)
explained_receipt other (app_error e) = text e.message
explained_receipt other cast_error = text other
explained_receipt other validation_error = text other
explained_receipt other duplicate_key = text other
explained_receipt other bad_query = text other

pub failed_receipt-explained :
    (other : String) (e : Thrown)
    → failed_receipt other e ≡ ack (failure (explained_receipt other e))
failed_receipt-explained other (zod_error issues) = refl
failed_receipt-explained other (app_error e) = refl
failed_receipt-explained other cast_error = refl
failed_receipt-explained other validation_error = refl
failed_receipt-explained other duplicate_key = refl
failed_receipt-explained other bad_query = refl

-- The broadcast of a read receipt, if it names any message.
abbrev pub told_read : Socket → ReadResult → List Call
told_read socket r =
    if ltb 0 (length r.message_ids)
    then emit_room r.conversation_id
        (message_read r.conversation_id r.message_ids socket.user.user_id)
      ∷ []
    else []

-- The messages were marked, the room was told of those that are newly read, and then the receipt was
-- acknowledged.
pub record IsRead (m : Mongo) (now : ℕ) (socket : Socket) (payload : MessageReadPayload)
    (before after : Server) : Type 0 where
  pub input : MessageReadPayload
  pub result : ReadResult
  pub parsed : parse_message_read m payload ≡ ok input
  pub marked :
      (mark_messages_read m now input.conversation_id input.up_to_message_id socket.user.user_id
        before.db).0
      ≡ ok result
  pub stored :
      after.db
      ≡ (mark_messages_read m now input.conversation_id input.up_to_message_id socket.user.user_id
          before.db).1
  pub same_active : after.active ≡ before.active
  pub told : after.calls ≡ before.calls ++ (told_read socket result ++ ack success ∷ [])

module _ (m : Mongo) (now : ℕ) (socket : Socket) (payload : MessageReadPayload) (s : Server) where
  abbrev other : String
  other = "Failed to mark messages read"

  abbrev run : MessageReadPayload → Result ReadResult × Db
  run input =
      mark_messages_read m now input.conversation_id input.up_to_message_id socket.user.user_id s.db

  unparsed :
      (e : Thrown)
      → parse_message_read m payload ≡ err e
      → IsTurnedDown s (on_message_read m now socket payload s)
  unfolding on_message_read
  unparsed e h = rw h (record {
    why = explained_receipt other e;
    same_active = refl;
    same_db = refl;
    told = ap (λ c. s.calls ++ c ∷ []) (failed_receipt-explained other e);
  })

  unmarked :
      (input : MessageReadPayload) (e : Thrown)
      → parse_message_read m payload ≡ ok input
      → (run input).0 ≡ err e
      → IsTurnedDown s (on_message_read m now socket payload s)
  unfolding on_message_read
  unmarked input e h threw =
      rw (h, threw)
        (record {
          why = explained_receipt other e;
          same_active = refl;
          same_db =
              read_fails m now input.conversation_id input.up_to_message_id socket.user.user_id s.db
                (ap is_ok threw);
          told = ap (λ c. s.calls ++ c ∷ []) (failed_receipt-explained other e);
        })

  marked-IsRead :
      (input : MessageReadPayload) (r : ReadResult)
      → parse_message_read m payload ≡ ok input
      → (run input).0 ≡ ok r
      → IsRead m now socket payload s (on_message_read m now socket payload s)
  unfolding on_message_read
  marked-IsRead input r h done = elim (Bool-cases (ltb 0 (length r.message_ids))) [
    | inl some_ids ↦ record {
      input = input;
      result = r;
      parsed = h;
      marked = done;
      stored = rw (h, done, some_ids) refl;
      same_active = rw (h, done, some_ids) refl;
      told = rw (h, done, some_ids) (++_assoc s.calls _ _);
    }
    | inr no_ids ↦ record {
      input = input;
      result = r;
      parsed = h;
      marked = done;
      stored = rw (h, done, no_ids) refl;
      same_active = rw (h, done, no_ids) refl;
      told = rw (h, done, no_ids) refl;
    }
  ]

  pub on_message_read-branches :
      IsTurnedDown s (on_message_read m now socket payload s)
      ⊎ IsRead m now socket payload s (on_message_read m now socket payload s)
  on_message_read-branches = elim (Result-cases (parse_message_read m payload)) [
    | inl (e, bad) ↦ inl (unparsed e bad)
    | inr (input, good) ↦ elim (Result-cases (run input).0) [
      | inl (e, threw) ↦ inl (unmarked input e good threw)
      | inr (r, done) ↦ inr (marked-IsRead input r good done)
    ]
  ]

-- The reader is a member, the messages that are newly read, and only they, became `read`, the room was
-- told of their ids, if there are any, and then the receipt was acknowledged.
pub record IsMarked (m : Mongo) (now : ℕ) (socket : Socket) (payload : MessageReadPayload)
    (before after : Server) : Type 0 where
  pub result : ReadResult
  pub marks :
      Marks m now payload.conversation_id payload.up_to_message_id socket.user.user_id before.db
        (ok result)
        after.db
  pub same_active : after.active ≡ before.active
  pub told : after.calls ≡ before.calls ++ (told_read socket result ++ ack success ∷ [])

parsed_read :
    (m : Mongo) (payload input : MessageReadPayload)
    → parse_message_read m payload ≡ ok input
    → payload ≡ input
unfolding parse_message_read object_id
parsed_read m payload input h = ground (arith, h)

IsRead-IsMarked :
    (m : Mongo) (now : ℕ) (socket : Socket) (payload : MessageReadPayload) (s t : Server)
    → IsRead m now socket payload s t
    → IsMarked m now socket payload s t
IsRead-IsMarked m now socket payload s t h =
    let user = socket.user.user_id in
    let e = parsed_read m payload h.input h.parsed in
    let room : String = h.input.conversation_id in
    let up_to : String = h.input.up_to_message_id in
    let done = mark_messages_read-Marks m now room up_to user s.db (rw h.marked refl) in
    record {
      result = h.result;
      marks = rw (e, h.stored) (rw h.marked at done);
      same_active = h.same_active;
      told = h.told;
    }

-- A read receipt has two outcomes. It is turned down: one failed acknowledgement, and nothing else
-- happens. Or its sender is a member of the conversation, and the given message is one of it; the
-- messages there that are not the sender's, not yet read and not newer than the given one, and no
-- others, become `read`; the room is told of their ids, if there are any, and then the receipt is
-- acknowledged.
pub on_message_read-outcome :
    (m : Mongo) (now : ℕ) (socket : Socket) (payload : MessageReadPayload) (s : Server)
    → IsTurnedDown s (on_message_read m now socket payload s)
      ⊎ IsMarked m now socket payload s (on_message_read m now socket payload s)
on_message_read-outcome m now socket payload s =
    elim (on_message_read-branches m now socket payload s) [
      | inl down ↦ inl down
      | inr done ↦
          inr (IsRead-IsMarked m now socket payload s (on_message_read m now socket payload s) done)
    ]
