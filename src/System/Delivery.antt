-- ===== src/System/Delivery.antt =====
-- A message on its whole way: from the composer of one client (sendMessage of
-- frontend-ui/src/hooks/useMessages.ts) over the server (src/sockets/handlers/message.handler.ts,
-- src/services/message.service.ts) to the open conversation of another (onNewMessage).
use react_websocket_chat.Prelude.{
  ℕ, String, ◌≡◌, refl, sym, ap, ◌∙◌, true, false, List, [], ◌∷◌, ◌++◌, some, arith, All, ltb, leb,
  length, find_of_any,
}
use react_websocket_chat.Sanitize.{Text, trim, strip_html_tags}
use react_websocket_chat.Sanitize.Trim.{trim_idempotent}
use react_websocket_chat.Sanitize.Tags.{length-strip_html_tags}
use react_websocket_chat.Exec.{ok}
use react_websocket_chat.Model.{ObjectId, Message}
use react_websocket_chat.Mongo.{Mongo}
use react_websocket_chat.Limiter.{RateLimits, check_message_rate_limit}
use react_websocket_chat.Conversations.{Stamp, is_member_of}
use react_websocket_chat.Conversations.Membership.{is_ok}
use react_websocket_chat.Conversations.Members.{lists_member}
use react_websocket_chat.Messages.{populate_sender, create_message}
use react_websocket_chat.Messages.Send.{SendRequest, sent_message, create_message_lem}
use react_websocket_chat.Validators.{
  SendMessagePayload, parse_send_message, object_id, message_text, valid,
}
use react_websocket_chat.Validators.Texts.{
  message_text-IsClean, message_schema_text-IsClean, nonempty,
}
use react_websocket_chat.Server.{
  success_with, JwtPayload, Socket, SocketMessagePayload, message_new, Call, emit_room, ack, Server,
}
use react_websocket_chat.Sockets.{to_socket_payload, on_message_send}
use react_websocket_chat.Sockets.Send.{IsSent, IsSent-to_room, clean_input}
use react_websocket_chat.Lifecycle.{on_connection}
use react_websocket_chat.Thread.{Thread, message_send, send_message, is_of_current, on_new_message}
use react_websocket_chat.System.{socket_with_id}
use react_websocket_chat.System.Listening.{on_connection-still_Listens}
use react_websocket_chat.System.Privacy.{is_in_room}
use react_websocket_chat.System.Rooms.{leaves}

-- What the composer emits for a text that has something besides tags.
abbrev pub typed : Mongo → ObjectId → Text → SendMessagePayload
typed m cid text = record { conversation_id = m.to_string cid; text = trim text }

module _ (m : Mongo) (cid : ObjectId) (text : Text) (short : ltb 5000 (length (trim text)) ≡ false)
    (worded : leb 1 (length (strip_html_tags (trim text))) ≡ true) where
  typed-valid : message_text "text" (trim text) ≡ valid (strip_html_tags (trim (trim text)))
  unfolding message_text
  typed-valid = rw (trim_idempotent text, short, worded) refl

  typed-parsed : parse_send_message m (typed m cid text) ≡ ok (clean_input (typed m cid text))
  unfolding parse_send_message object_id
  typed-parsed = rw (m.is_valid-to_string cid, typed-valid) refl

  emitted-typed :
      (composer : Thread)
      → (send_message (some (m.to_string cid)) text composer).emitted
        ≡ composer.emitted ++ message_send (m.to_string cid) (trim text) ∷ []
  unfolding send_message
  emitted-typed composer =
      rw (nonempty (trim text) (ground (arith, length-strip_html_tags (trim text)))) refl

  module _ (env : RateLimits) (stamp : Stamp) (sender : Socket) (author : ObjectId) (v : Server)
      (known : m.parse sender.user.user_id ≡ some author)
      (wrote : lists_member cid author v.db.conversations ≡ true)
      (within : (check_message_rate_limit env stamp.now sender.user.user_id v.buckets).0
        ≡ true) where
    typed-created :
        is_ok (create_message m stamp sender.user.user_id (clean_input (typed m cid text)) v.db).0
        ≡ true
    typed-created =
        let (c, found, _) = find_of_any (is_member_of cid author) v.db.conversations wrote in
        let (clean, _) =
          message_text-IsClean "text" (trim text) (strip_html_tags (trim (trim text)))
            typed-valid in
        let r : SendRequest m sender.user.user_id (clean_input (typed m cid text)) v.db = record {
          cid = cid;
          uid = author;
          conversation = c;
          text = strip_html_tags (trim (trim text));
          parsed_conversation = m.parse-to_string cid;
          parsed_sender = known;
          found = found;
          stored = message_schema_text-IsClean (strip_html_tags (trim (trim text))) clean;
        } in
        rw (create_message_lem m stamp sender.user.user_id (clean_input (typed m cid text)) v.db r)
          refl

    typed-IsSent :
        IsSent m stamp sender
          (typed m cid text)
          v
          (on_message_send m env stamp sender (typed m cid text) v)
    typed-IsSent =
        IsSent-to_room m env stamp sender (typed m cid text) v within typed-parsed typed-created

shown :
    (msg : SocketMessagePayload) (reader : Thread)
    → is_of_current msg.conversation_id reader.current ≡ true
    → (on_new_message msg reader).messages ≡ reader.messages ++ msg ∷ []
unfolding on_new_message
shown msg reader opened = rw opened refl

module _ (m : Mongo) (owner : String → JwtPayload) (id : String) (cid uid : ObjectId)
    (known_reader : m.parse (owner id).user_id ≡ some uid) where
  -- What a member types, the other members see: a socket connects whose user is a member of a
  -- conversation, and no later call takes it out of the conversation's room. Then a member, whose
  -- rate is within the limit, submits a text that has at most 5000 code units and something besides
  -- tags. The composer emits it, trimmed. The server, given what was emitted, sends a message with
  -- that text, without its tags, to the conversation's room while the socket is in it; and a client
  -- that has the conversation open, given the message, shows it after the others.
  pub sent-shown :
      (env : RateLimits) (now : ℕ) (stamp : Stamp) (sender : Socket) (author : ObjectId)
      (text : Text) (s v : Server) (others : List Call) (composer reader : Thread)
      → lists_member cid uid s.db.conversations ≡ true
      → v.calls ≡ (on_connection m now (socket_with_id owner id) s).calls ++ others
      → All (λ c. leaves id (m.to_string cid) c ≡ false) others
      → m.parse sender.user.user_id ≡ some author
      → lists_member cid author v.db.conversations ≡ true
      → (check_message_rate_limit env stamp.now sender.user.user_id v.buckets).0 ≡ true
      → ltb 5000 (length (trim text)) ≡ false
      → leb 1 (length (strip_html_tags (trim text))) ≡ true
      → is_of_current (m.to_string cid) reader.current ≡ true
      → let t = on_message_send m env stamp sender (typed m cid text) v in
        ((send_message (some (m.to_string cid)) text composer).emitted
          ≡ composer.emitted ++ message_send (m.to_string cid) (trim text) ∷ [])
        × (msg : SocketMessagePayload) × (before : List Call) × (rest : List Call) × (t.calls
            ≡ before ++ emit_room (m.to_string cid) (message_new msg) ∷ rest)
        × (is_in_room id (m.to_string cid) false before ≡ true)
        × (msg.text ≡ strip_html_tags (trim text))
        × ((on_new_message msg reader).messages ≡ reader.messages ++ msg ∷ [])
  unfolding to_socket_payload populate_sender
  sent-shown env now stamp sender author text s v others composer reader member calls quiet known
        wrote within short worded opened =
      let sent =
        typed-IsSent m cid text short worded env stamp sender author v known wrote within in
      let r = sent.request in
      let same : r.cid ≡ cid =
        let e : some r.cid ≡ some cid = sym r.parsed_conversation ∙ m.parse-to_string cid in
        ground (arith, e) in
      let stored : Message = sent_message stamp r.cid r.uid (strip_html_tags (trim (trim text))) in
      let t = on_message_send m env stamp sender (typed m cid text) v in
      let msg : SocketMessagePayload = to_socket_payload m (populate_sender m stored t.db) in
      (
        emitted-typed m cid text short worded composer,
        msg,
        v.calls,
        ack (success_with msg) ∷ [],
        sent.told,
        on_connection-still_Listens m owner id cid uid known_reader now s v others member calls
            quiet,
        ap strip_html_tags (trim_idempotent text),
        shown msg reader (rw same opened),
      )
