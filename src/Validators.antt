-- ===== src/Validators.antt =====
-- src/validators/message.validator.ts: the zod schemas of the socket events. zod is no code of this
-- repository; a schema is read as the checks and transforms that its declaration lists, in order.
-- A payload has the fields that its TypeScript type declares.
pub mod Texts
use react_websocket_chat.Prelude.{String, List, [], ◌∷◌, ◌++◌, ltb, leb, length, if◌then◌else◌}
use react_websocket_chat.Sanitize.{Text, trim, strip_html_tags}
use react_websocket_chat.Exec.{Issue, Result, ok, err, zod_error}
use react_websocket_chat.Mongo.{Mongo}
use react_websocket_chat.Messages.{SendMessageInput}

-- A schema's outcome for one field: the value, or its issues.
pub data Parsed {ℓ} (A : Type ℓ) : Type ℓ where
  valid : A → Parsed A
  invalid : List Issue → Parsed A

-- z.string().refine(isValid, 'Invalid ObjectId')
unfoldable pub object_id : Mongo → String → String → Parsed String
object_id m path value =
    if m.is_valid value
    then valid value
    else invalid (record { path = path; message = "Invalid ObjectId" } ∷ [])

-- The transform and the refinement run only if the checks before them passed.
unfoldable pub message_text : String → Text → Parsed Text
message_text path value =
    let trimmed = trim value in
    let stripped = strip_html_tags trimmed in
    if ltb 5000 (length trimmed)
    then invalid
        (record { path = path; message = "Message text cannot exceed 5000 characters" } ∷ [])
    else if leb 1 (length stripped)
    then valid stripped
    else invalid (record { path = path; message = "Message text cannot be empty" } ∷ [])

-- An object's issues are those of all its fields, in order.
abbrev pub both {ℓ} : {A B C : Type ℓ} → (A → B → C) → Parsed A → Parsed B → Result C
both f (valid a) (valid b) = ok (f a b)
both f (invalid is) (valid b) = err (zod_error is)
both f (valid a) (invalid js) = err (zod_error js)
both f (invalid is) (invalid js) = err (zod_error (is ++ js))

abbrev pub one {ℓ} : {A : Type ℓ} → Parsed A → Result A
one (valid a) = ok a
one (invalid is) = err (zod_error is)

pub record SendMessagePayload : Type 0 where
  pub conversation_id : String
  pub text : Text

pub record MessageReadPayload : Type 0 where
  pub conversation_id : String
  pub up_to_message_id : String

-- sendMessageSchema.parse(payload)
unfoldable pub parse_send_message : Mongo → SendMessagePayload → Result SendMessageInput
unfolding object_id message_text
parse_send_message m payload =
    both (λ conversation_id text. record { conversation_id = conversation_id; text = text })
      (object_id m "conversationId" payload.conversation_id) (message_text "text" payload.text)

-- messageDeliveredSchema.parse(payload), the message id of a payload { messageId }
unfoldable pub parse_message_delivered : Mongo → String → Result String
unfolding object_id
parse_message_delivered m message_id = one (object_id m "messageId" message_id)

-- messageReadSchema.parse(payload)
unfoldable pub parse_message_read : Mongo → MessageReadPayload → Result MessageReadPayload
unfolding object_id
parse_message_read m payload =
    both
      (λ conversation_id up_to. record {
        conversation_id = conversation_id;
        up_to_message_id = up_to;
      })
      (object_id m "conversationId" payload.conversation_id)
      (object_id m "upToMessageId" payload.up_to_message_id)

-- typingSchema.safeParse(payload), the conversation id of a payload { conversationId }
unfoldable pub parse_typing : Mongo → String → Result String
unfolding object_id
parse_typing m conversation_id = one (object_id m "conversationId" conversation_id)
