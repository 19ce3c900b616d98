-- ===== src/Sockets/Send.antt =====
-- What `message:send` does on each of its branches (src/sockets/handlers/message.handler.ts).
use react_websocket_chat.Prelude.{
  String, ◌≡◌, refl, ap, sym, ◌∙◌, true, false, List, [], ◌∷◌, ◌++◌, arith, Bool-cases, inl, inr,
  ◌⊎◌,
}
use react_websocket_chat.Sanitize.{Text, trim, strip_html_tags}
use react_websocket_chat.Exec.{
  ok, err, Thrown, app_error, zod_error, cast_error, validation_error, duplicate_key, bad_query,
  Result-cases,
}
use react_websocket_chat.Mongo.{Mongo}
use react_websocket_chat.Limiter.{RateLimits, check_message_rate_limit}
use react_websocket_chat.Conversations.{Stamp}
use react_websocket_chat.Conversations.Membership.{is_ok}
use react_websocket_chat.Messages.{SendMessageInput, populate_sender, create_message}
use react_websocket_chat.Messages.Send.{
  SendRequest, sent_message, after_send, create_message-sends, create_message_atomic,
}
use react_websocket_chat.Validators.{
  SendMessagePayload, parse_send_message, object_id, valid, message_text,
}
use react_websocket_chat.Validators.Texts.{
  IsClean, message_text-IsClean, message_schema_text-IsClean,
}
use react_websocket_chat.Server.{
  Socket, SocketMessagePayload, message_new, AckMessage, text, validation_issues, success_with,
  failure, Call, emit_room, ack, Server, failed, rate_limit_exceeded,
}
use react_websocket_chat.Sockets.{to_socket_payload, on_message_send}

-- The failure that is acknowledged for an exception.
abbrev pub explained : String → Thrown → AckMessage
explained other (zod_error issues) = validation_issues issues
explained other (app_error e) = text e.message
explained other cast_error = text other
explained other validation_error = text other
explained other duplicate_key = text other
explained other bad_query = text other

pub failed-explained :
    (other : String) (e : Thrown) → failed other e ≡ ack (failure (explained other e))
failed-explained other (zod_error issues) = refl
failed-explained other (app_error e) = refl
failed-explained other cast_error = refl
failed-explained other validation_error = refl
failed-explained other duplicate_key = refl
failed-explained other bad_query = refl

-- The request was turned down: one failed acknowledgement, and nothing else.
pub record IsTurnedDown (before after : Server) : Type 0 where
  pub why : AckMessage
  pub same_active : after.active ≡ before.active
  pub same_db : after.db ≡ before.db
  pub told : after.calls ≡ before.calls ++ ack (failure why) ∷ []

-- The payload, sanitised: what is stored and shown.
abbrev pub clean_input : SendMessagePayload → SendMessageInput
clean_input payload = record {
  conversation_id = payload.conversation_id;
  text = strip_html_tags (trim payload.text);
}

-- The message was stored, sent to the room that the client named, and then acknowledged.
pub record IsSent (m : Mongo) (stamp : Stamp) (socket : Socket) (payload : SendMessagePayload)
    (before after : Server) : Type 0 where
  pub request : SendRequest m socket.user.user_id (clean_input payload) before.db
  pub valid_room : m.is_valid payload.conversation_id ≡ true
  pub same_active : after.active ≡ before.active
  pub stored :
      after.db
      ≡ after_send m stamp
          (sent_message stamp request.cid request.uid (strip_html_tags (trim payload.text)))
          before.db
  pub clean : IsClean (strip_html_tags (trim payload.text))
  pub told :
      let sent = to_socket_payload m (
        populate_sender m
          (sent_message stamp request.cid request.uid (strip_html_tags (trim payload.text)))
          after.db) in
      after.calls
      ≡ before.calls
        ++ emit_room payload.conversation_id (message_new sent) ∷ ack (success_with sent) ∷ []

pub ++_assoc : (cs ds es : List Call) → (cs ++ ds) ++ es ≡ cs ++ (ds ++ es)
++_assoc [] ds es = refl
++_assoc (c ∷ cs) ds es = ap (λ rest. c ∷ rest) (++_assoc cs ds es)

-- What a valid payload parses to.
parsed_input :
    (m : Mongo) (payload : SendMessagePayload) (input : SendMessageInput)
    → parse_send_message m payload ≡ ok input
    → (input ≡ clean_input payload) × IsClean (strip_html_tags (trim payload.text))
unfolding parse_send_message
parsed_input m payload input h =
    let taken : message_text "text" payload.text ≡ valid input.text =
      unfold message_text in ground arith in
    let (clean, same) = message_text-IsClean "text" payload.text input.text taken in
    (ground arith, rw (sym same) clean)

module _ (m : Mongo) (env : RateLimits) (stamp : Stamp) (socket : Socket)
    (payload : SendMessagePayload) (s : Server) where
  limited :
      (check_message_rate_limit env stamp.now socket.user.user_id s.buckets).0 ≡ false
      → IsTurnedDown s (on_message_send m env stamp socket payload s)
  unfolding on_message_send
  limited h = rw h (record {
    why = rate_limit_exceeded env.max env.window_ms;
    same_active = refl;
    same_db = refl;
    told = refl;
  })

  invalid_payload :
      (e : Thrown)
      → (check_message_rate_limit env stamp.now socket.user.user_id s.buckets).0 ≡ true
      → parse_send_message m payload ≡ err e
      → IsTurnedDown s (on_message_send m env stamp socket payload s)
  unfolding on_message_send
  invalid_payload e h p =
      rw (h, p)
        (record {
          why = explained "Failed to send message" e;
          same_active = refl;
          same_db = refl;
          told = ap (λ a. s.calls ++ a ∷ []) (failed-explained "Failed to send message" e);
        })

  not_created :
      (e : Thrown) (input : SendMessageInput)
      → (check_message_rate_limit env stamp.now socket.user.user_id s.buckets).0 ≡ true
      → parse_send_message m payload ≡ ok input
      → (create_message m stamp socket.user.user_id input s.db).0 ≡ err e
      → IsTurnedDown s (on_message_send m env stamp socket payload s)
  unfolding on_message_send
  not_created e input h p c =
      rw (h, p, c)
        (record {
          why = explained "Failed to send message" e;
          same_active = refl;
          same_db = create_message_atomic m stamp socket.user.user_id input s.db (rw c refl);
          told = ap (λ a. s.calls ++ a ∷ []) (failed-explained "Failed to send message" e);
        })

  pub IsSent-to_room :
      (check_message_rate_limit env stamp.now socket.user.user_id s.buckets).0 ≡ true
      → parse_send_message m payload ≡ ok (clean_input payload)
      → is_ok (create_message m stamp socket.user.user_id (clean_input payload) s.db).0 ≡ true
      → IsSent m stamp socket payload s (on_message_send m env stamp socket payload s)
  unfolding on_message_send
  IsSent-to_room h p c =
      let (_, clean) = parsed_input m payload (clean_input payload) p in
      let (r, e) = create_message-sends m stamp socket.user.user_id (clean_input payload) s.db c in
      let same : r.text ≡ (clean_input payload).text =
        let taken : ok r.text ≡ ok (clean_input payload).text =
          sym r.stored ∙ message_schema_text-IsClean (clean_input payload).text clean in
        ground (arith, taken) in
      let told : Text → SocketMessagePayload = λ t. to_socket_payload m (
        populate_sender m (sent_message stamp r.cid r.uid t)
          (after_send m stamp (sent_message stamp r.cid r.uid r.text) s.db)) in
      rw (h, p, e)
        (record {
          request = r;
          valid_room = unfold parse_send_message object_id in ground arith;
          same_active = refl;
          stored = ap (λ t. after_send m stamp (sent_message stamp r.cid r.uid t) s.db) same;
          clean = clean;
          told =
              ++_assoc s.calls (emit_room payload.conversation_id (message_new (told r.text)) ∷ [])
                (ack (success_with (told r.text)) ∷ [])
              ∙ ap
                  (λ t.
                    s.calls
                    ++ emit_room payload.conversation_id (message_new (told t))
                      ∷ ack (success_with (told t))
                      ∷ [])
                  same;
        })

-- Every `message:send` has one of two outcomes. Either it is turned down: the database is as it was,
-- and one failed acknowledgement is all that is sent. Or the sanitised text, which is clean, is
-- stored as one new message of the sender in a conversation that has them as a member, the room that
-- the client named is told of it once, and then one acknowledgement carries the same message. In
-- both cases the map of connections is as it was.
pub on_message_send-outcome :
    (m : Mongo) (env : RateLimits) (stamp : Stamp) (socket : Socket) (payload : SendMessagePayload)
    (s : Server)
    → IsTurnedDown s (on_message_send m env stamp socket payload s)
      ⊎ IsSent m stamp socket payload s (on_message_send m env stamp socket payload s)
on_message_send-outcome m env stamp socket payload s =
    elim (Bool-cases (check_message_rate_limit env stamp.now socket.user.user_id s.buckets).0) [
      | inr over ↦ inl (limited m env stamp socket payload s over)
      | inl within ↦ elim (Result-cases (parse_send_message m payload)) [
        | inl (e, invalid_p) ↦ inl (invalid_payload m env stamp socket payload s e within invalid_p)
        | inr (input, parsed) ↦
            elim (Result-cases (create_message m stamp socket.user.user_id input s.db).0) [
              | inl (e, refused) ↦
                  inl (not_created m env stamp socket payload s e input within parsed refused)
              | inr (p, created) ↦
                  let same : input ≡ clean_input payload =
                    (parsed_input m payload input parsed).0 in
                  inr (
                    IsSent-to_room m env stamp socket payload s within (parsed ∙ ap ok same)
                      (rw (sym same) (rw created refl)))
            ]
      ]
    ]
