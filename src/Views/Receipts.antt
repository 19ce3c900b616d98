-- ===== src/Views/Receipts.antt =====
-- The read receipts of an open chat come to rest. Showing a list of messages makes the client ask
-- for a receipt (frontend-ui/src/components/ChatWindow.tsx), the receipt comes back to the client
-- (src/sockets/handlers/receipt.handler.ts), and makes a new list of messages
-- (frontend-ui/src/hooks/useMessages.ts), which is shown again.
use mathlib.Core.Option
use react_websocket_chat.Prelude.{
  ℕ, String, ◌≡◌, refl, ap, ◌∙◌, true, false, List, [], ◌∷◌, Option, none, some, is_some, map, any,
  length, ltb, Bool-cases, Option-cases, inl, inr, ◌⊎◌, str_eq,
}
use react_websocket_chat.Exec.{Result, ok}
use react_websocket_chat.Model.{Db}
use react_websocket_chat.Mongo.{Mongo}
use react_websocket_chat.Conversations.Membership.{is_ok}
use react_websocket_chat.Messages.{ReadResult, mark_messages_read}
use react_websocket_chat.Messages.Read.{mark_messages_read_again}
use react_websocket_chat.Validators.{MessageReadPayload, parse_message_read}
use react_websocket_chat.Server.{
  Socket, SocketMessagePayload, message_read, emit_room, Call, Server,
}
use react_websocket_chat.Sockets.{on_message_read}
use react_websocket_chat.Sockets.Receipts.{on_message_read-branches}
use react_websocket_chat.Thread.{Thread, request_read, is_of_current, mark_read, on_read}
use react_websocket_chat.Views.{
  last_message, visible_of, visible_last_message, on_visible, on_messages,
}

-- The receipt among the calls of a handler: its conversation and the messages' ids.
abbrev pub read_event : List Call → Option (String × List String)
read_event [] = none
read_event (emit_room room (message_read conversation_id ids by) ∷ calls) =
    some (conversation_id, ids)
read_event (c ∷ calls) = read_event calls

abbrev quiet : Server → Server
quiet s = record s { calls = [] }

abbrev request : (id last : String) → MessageReadPayload
request id last = record { conversation_id = id; up_to_message_id = last }

abbrev State : Type 0
State = Server × Thread

abbrev if_visible : Option String → State → (String → Option State) → Option State
if_visible none x next = some x
if_visible (some last) x next = next last

abbrev if_event :
    Option (String × List String) → State → (String × List String → Option State) → Option State
if_event none x next = some x
if_event (some event) x next = next event

-- The exchange from the moment that the chat `id` shows its messages, with the times at which the
-- server handles the requests: where it comes to rest, or none if the times run out before.
unfoldable pub exchange :
    Mongo → Socket → (id : String) → (times : List ℕ) → Server → Thread → Option State
exchange m socket id [] s t = none
exchange m socket id (now ∷ times) s t =
    let asked = on_messages m socket.user.user_id (some id) t in
    if_visible (visible_last_message m socket.user.user_id t.messages) (s, t)
      λ last.
        let s' = on_message_read m now socket (request id last) (quiet s) in
        if_event (read_event s'.calls) (s', asked)
          λ event. exchange m socket id times s' (on_read event.0 event.1 asked)

module _ (m : Mongo) (now : ℕ) (socket : Socket) (payload : MessageReadPayload) (s : Server) where
  abbrev marked : MessageReadPayload → Result ReadResult × Db
  marked input =
      mark_messages_read m now input.conversation_id input.up_to_message_id socket.user.user_id s.db

  nothing_new :
      (input : MessageReadPayload) (r : ReadResult)
      → parse_message_read m payload ≡ ok input
      → (marked input).0 ≡ ok r
      → ltb 0 (length r.message_ids) ≡ false
      → read_event (on_message_read m now socket payload (quiet s)).calls ≡ none
  unfolding on_message_read
  nothing_new input r h done none_new = rw (h, done, none_new) refl

-- An answer with a receipt comes from messages that were marked.
asked_once :
    (m : Mongo) (now : ℕ) (socket : Socket) (payload : MessageReadPayload) (s : Server)
    → (read_event (on_message_read m now socket payload (quiet s)).calls ≡ none)
      ⊎ ((input : MessageReadPayload) × (event : String × List String) × (parse_message_read m
              payload
            ≡ ok input)
          × (is_ok (marked m now socket payload s input).0 ≡ true)
          × (read_event (on_message_read m now socket payload (quiet s)).calls ≡ some event)
          × ((on_message_read m now socket payload (quiet s)).db
              ≡ (marked m now socket payload s input).1))
asked_once m now socket payload s = elim (on_message_read-branches m now socket payload (quiet s)) [
  | inl turned_down ↦ inl (ap read_event turned_down.told)
  | inr r ↦ elim (Bool-cases (ltb 0 (length r.result.message_ids))) [
    | inl new ↦ inr (
      r.input,
      (r.result.conversation_id, r.result.message_ids),
      r.parsed,
      ap is_ok r.marked,
      ap read_event r.told ∙ rw new refl,
      r.stored,
    )
    | inr nothing ↦ inl (ap read_event r.told ∙ rw nothing refl)
  ]
]

-- After such an answer the same request finds nothing new.
asked_again :
    (m : Mongo) (now later : ℕ) (socket : Socket) (payload input : MessageReadPayload)
    (s s' : Server)
    → parse_message_read m payload ≡ ok input
    → is_ok (marked m now socket payload s input).0 ≡ true
    → s'.db ≡ (marked m now socket payload s input).1
    → read_event (on_message_read m later socket payload (quiet s')).calls ≡ none
asked_again m now later socket payload input s s' good done stored =
    let uid : String = socket.user.user_id in
    let again =
      mark_messages_read_again m now later input.conversation_id input.up_to_message_id uid s.db
        done in
    nothing_new m later socket payload s' input
      (record { conversation_id = input.conversation_id; message_ids = [] }) good
      (ap (λ db. (mark_messages_read m later input.conversation_id input.up_to_message_id uid db).0)
          stored
        ∙ ap (λ x. x.0) again)
      refl

last_message-map :
    (f : SocketMessagePayload → SocketMessagePayload) (msgs : List SocketMessagePayload)
    → last_message (map f msgs) ≡ Option.map f (last_message msgs)
unfolding last_message
last_message-map f [] = refl
last_message-map f (msg ∷ []) = refl
last_message-map f (msg ∷ next ∷ rest) = last_message-map f (next ∷ rest)

visible_of-map :
    (m : Mongo) (user_id : String) (ids : List String) (o : Option SocketMessagePayload)
    → visible_of m user_id (Option.map (mark_read ids) o) ≡ visible_of m user_id o
unfolding mark_read
visible_of-map m user_id ids none = refl
visible_of-map m user_id ids (some msg) = elim (Bool-cases (any (λ id. str_eq id msg.id) ids)) [
  | inl now_read ↦ rw now_read refl
  | inr as_before ↦ rw as_before refl
]

-- A receipt changes neither the last message's sender nor its id.
visible-on_read :
    (m : Mongo) (user_id conversation_id : String) (ids : List String) (t : Thread)
    → visible_last_message m user_id (on_read conversation_id ids t).messages
      ≡ visible_last_message m user_id t.messages
unfolding on_read visible_last_message
visible-on_read m user_id conversation_id ids t =
    elim (Bool-cases (is_of_current conversation_id t.current)) [
      | inl shown ↦ rw shown (
          ap (visible_of m user_id) (last_message-map (mark_read ids) t.messages)
          ∙ visible_of-map m user_id ids (last_message t.messages))
      | inr other ↦ rw other refl
    ]

messages-on_visible :
    (id : String) (o : Option String) (t : Thread)
    → (on_visible (some id) o t).messages ≡ t.messages
unfolding request_read
messages-on_visible id none t = refl
messages-on_visible id (some last) t = refl

messages-on_messages :
    (m : Mongo) (user_id id : String) (t : Thread)
    → (on_messages m user_id (some id) t).messages ≡ t.messages
unfolding on_messages
messages-on_messages m user_id id t =
    messages-on_visible id (visible_last_message m user_id t.messages) t

module _ (m : Mongo) (socket : Socket) (id : String) where
  ends_now :
      (now : ℕ) (times : List ℕ) (s : Server) (t : Thread) (last : String)
      → visible_last_message m socket.user.user_id t.messages ≡ some last
      → read_event (on_message_read m now socket (request id last) (quiet s)).calls ≡ none
      → is_some (exchange m socket id (now ∷ times) s t) ≡ true
  unfolding exchange
  ends_now now times s t last shown none_new = rw (shown, none_new) refl

  goes_on :
      (now : ℕ) (times : List ℕ) (s : Server) (t : Thread) (last : String)
      (event : String × List String)
      → visible_last_message m socket.user.user_id t.messages ≡ some last
      → read_event (on_message_read m now socket (request id last) (quiet s)).calls ≡ some event
      → exchange m socket id (now ∷ times) s t
        ≡ exchange m socket id times
            (on_message_read m now socket (request id last) (quiet s))
            (on_read event.0 event.1 (on_messages m socket.user.user_id (some id) t))
  unfolding exchange
  goes_on now times s t last event shown answered = rw (shown, answered) refl

  -- If no other event comes between, an open chat that is shown asks for read receipts twice at
  -- most, whatever its messages are and whether the server answers or fails: the answer to the
  -- second request brings no new list.
  pub exchange_ends :
      (now later : ℕ) (times : List ℕ) (s : Server) (t : Thread)
      → is_some (exchange m socket id (now ∷ later ∷ times) s t) ≡ true
  unfolding exchange
  exchange_ends now later times s t =
      let uid : String = socket.user.user_id in
      elim (Option-cases (visible_last_message m uid t.messages)) [
        | inl nothing ↦ rw nothing refl
        | inr (last, shown) ↦ elim (asked_once m now socket (request id last) s) [
          | inl none_new ↦ ends_now now (later ∷ times) s t last shown none_new
          | inr (input, event, good, done, answered, stored) ↦
              let s' : Server = on_message_read m now socket (request id last) (quiet s) in
              let asked : Thread = on_messages m uid (some id) t in
              let t' : Thread = on_read event.0 event.1 asked in
              let still : visible_last_message m uid t'.messages ≡ some last =
                visible-on_read m uid event.0 event.1 asked
                ∙ (ap (visible_last_message m uid) (messages-on_messages m uid id t) ∙ shown) in
              ap is_some (goes_on now (later ∷ times) s t last event shown answered)
              ∙ ends_now later times s' t' last still
                  (asked_again m now later socket (request id last) input s s' good done stored)
        ]
      ]
