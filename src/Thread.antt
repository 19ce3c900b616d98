-- ===== src/Thread.antt =====
-- frontend-ui/src/hooks/useMessages.ts: the messages of the open conversation, as the client shows
-- them. The hook's callbacks are functions of its state; a socket is taken to be connected. A run of
-- the effect is identified by its number and the conversation it was started for, and its
-- `cancelled` is that it is no longer the current run.
pub mod Order
pub mod Own
pub mod Shown
use react_websocket_chat.Prelude.{
  ℕ, suc, ◌+◌, String, Bool, true, false, ◌&&◌, List, [], ◌∷◌, ◌++◌, map, Option, none, some, any,
  str_eq, assign, delete, if◌then◌else◌, ◌==◌,
}
use react_websocket_chat.Sanitize.{Text, trim, is_empty}
use react_websocket_chat.Model.{MessageStatus, delivered, read, is_sent}
use react_websocket_chat.Server.{SocketMessagePayload}

-- ClientToServerEvents, as far as the hook emits them
pub data ClientEvent : Type 0 where
  conversation_join conversation_leave typing_start typing_stop :
      (conversation_id : String) → ClientEvent
  message_send : (conversation_id : String) → Text → ClientEvent
  message_read : (conversation_id up_to_message_id : String) → ClientEvent

pub record EffectRun : Type 0 where
  pub number : ℕ
  pub conversation_id : String

-- The hook's state, the run that is not cancelled, the number of runs so far, the timer of
-- `typing:stop` with the conversation it is for, and what was emitted.
pub record Thread : Type 0 where
  pub messages : List SocketMessagePayload
  pub loading : Bool
  pub error : Option String
  pub typing_users : List (String × Text)
  pub current : Option EffectRun
  pub runs : ℕ
  pub typing_timer : Option (ℕ × String)
  pub emitted : List ClientEvent

abbrev pub emit : ClientEvent → Thread → Thread
emit event t = record t { emitted = t.emitted ++ event ∷ [] }

-- The cleanup of the effect.
unfoldable pub close_thread : Thread → Thread
close_thread t = elim t.current [
  | none ↦ t
  | some run ↦ emit (conversation_leave run.conversation_id) (record t { current = none })
]

-- The effect, with the cleanup of the run before: the request for the history is sent, and the
-- room is joined.
unfoldable pub open_thread : (has_token : Bool) → Option String → Thread → Thread
unfolding close_thread
open_thread has_token conversation_id before =
    let closed = close_thread before in
    let t : Thread = record closed { messages = []; typing_users = [] } in
    elim conversation_id [
      | none ↦ t
      | some id ↦
          if has_token
          then emit (conversation_join id) (record t {
            current = some (record { number = t.runs; conversation_id = id });
            runs = suc t.runs;
            loading = true;
          })
          else t
    ]

unfoldable pub is_current : EffectRun → Option EffectRun → Bool
is_current run none = false
is_current run (some current) =
    run.number == current.number && str_eq run.conversation_id current.conversation_id

-- What getMessages brings a run: a page, newest first, or an error's message, if it is an Error.
pub data Loaded : Type 0 where
  page : List SocketMessagePayload → Loaded
  failed : Option String → Loaded

abbrev pub reverse_onto {ℓ} : {A : Type ℓ} → List A → List A → List A
reverse_onto [] done = done
reverse_onto (x ∷ xs) done = reverse_onto xs (x ∷ done)

abbrev pub or_else : String → Option String → String
or_else default none = default
or_else default (some message) = message

abbrev pub show_loaded : Loaded → Thread → Thread
show_loaded (page msgs) t = record t { messages = reverse_onto msgs []; error = none }
show_loaded (failed message) t = record t {
  error = some (or_else "Failed to load messages" message);
}

unfoldable pub on_loaded : EffectRun → Loaded → Thread → Thread
unfolding is_current
on_loaded run result t =
    if is_current run t.current then record (show_loaded result t) { loading = false } else t

-- if (payload.conversationId !== conversationId) return
unfoldable pub is_of_current : String → Option EffectRun → Bool
is_of_current conversation_id none = false
is_of_current conversation_id (some run) = str_eq conversation_id run.conversation_id

unfoldable pub on_new_message : SocketMessagePayload → Thread → Thread
unfolding is_of_current
on_new_message msg t =
    if is_of_current msg.conversation_id t.current
    then record t { messages = t.messages ++ msg ∷ [] }
    else t

-- The update of one message in onDelivered and in onRead.
unfoldable pub deliver : String → SocketMessagePayload → SocketMessagePayload
deliver message_id msg =
    if str_eq msg.id message_id && is_sent msg.status
    then record msg { status = delivered }
    else msg

unfoldable pub mark_read : List String → SocketMessagePayload → SocketMessagePayload
mark_read message_ids msg =
    if any (λ id. str_eq id msg.id) message_ids then record msg { status = read } else msg

unfoldable pub on_delivered : (message_id conversation_id : String) → Thread → Thread
unfolding deliver is_of_current
on_delivered message_id conversation_id t =
    if is_of_current conversation_id t.current
    then record t { messages = map (deliver message_id) t.messages }
    else t

unfoldable pub on_read : (conversation_id : String) → (message_ids : List String) → Thread → Thread
unfolding mark_read is_of_current
on_read conversation_id message_ids t =
    if is_of_current conversation_id t.current
    then record t { messages = map (mark_read message_ids) t.messages }
    else t

unfoldable pub on_typing_start : (conversation_id user_id : String) → Text → Thread → Thread
unfolding is_of_current
on_typing_start conversation_id user_id username t =
    if is_of_current conversation_id t.current
    then record t { typing_users = assign user_id username t.typing_users }
    else t

unfoldable pub on_typing_stop : (conversation_id user_id : String) → Thread → Thread
unfolding is_of_current
on_typing_stop conversation_id user_id t =
    if is_of_current conversation_id t.current
    then record t { typing_users = delete user_id t.typing_users }
    else t

-- sendMessage, and the acknowledgement's callback; an empty message counts as none.
unfoldable pub send_message : Option String → Text → Thread → Thread
send_message none text t = t
send_message (some conversation_id) text t =
    if is_empty (trim text) then t else emit (message_send conversation_id (trim text)) t

abbrev pub nonempty : Option String → Option String
nonempty none = none
nonempty (some message) = if str_eq message "" then none else some message

unfoldable pub on_send_ack : (success : Bool) → (message : Option String) → Thread → Thread
on_send_ack success message t =
    if success
    then t
    else record t { error = some (or_else "Failed to send message" (nonempty message)) }

-- markRead
unfoldable pub request_read : Option String → String → Thread → Thread
request_read none up_to_message_id t = t
request_read (some conversation_id) up_to_message_id t =
    emit (message_read conversation_id up_to_message_id) t

-- notifyTyping, and its timer: TYPING_STOP_DELAY_MS is 2500.
unfoldable pub notify_typing : ℕ → Option String → Thread → Thread
notify_typing now none t = t
notify_typing now (some conversation_id) t = record (emit (typing_start conversation_id) t) {
  typing_timer = some (now + 2500, conversation_id);
}

unfoldable pub on_typing_timer : Thread → Thread
on_typing_timer t = elim t.typing_timer [
  | none ↦ t
  | some timer ↦ emit (typing_stop timer.1) (record t { typing_timer = none })
]
