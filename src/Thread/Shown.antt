-- ===== src/Thread/Shown.antt =====
-- What the client shows of a conversation, over every sequence of the hook's callbacks
-- (frontend-ui/src/hooks/useMessages.ts).
use react_websocket_chat.Prelude.{
  ℕ, String, ◌≡◌, refl, sym, Bool, true, List, [], ◌∷◌, ◌++◌, Option, none, some, All, arith,
  Bool-cases, Option-cases, inl, inr, str_eq_iff,
}
use react_websocket_chat.Sanitize.{Text, trim, is_empty}
use react_websocket_chat.Server.{SocketMessagePayload}
use react_websocket_chat.Thread.{
  Thread, EffectRun, Loaded, page, failed, reverse_onto, is_current, is_of_current, close_thread,
  open_thread, on_loaded, on_new_message, deliver, mark_read, on_delivered, on_read,
  on_typing_start, on_typing_stop, send_message, on_send_ack, request_read, notify_typing,
  on_typing_timer,
}
use react_websocket_chat.Thread.Own.{
  AllOf, ShownOf, IsOwn, AllOf-reverse_onto, AllOf-append, ShownOf-map,
}

-- Everything that can happen to the hook: a switch of conversations, an unmount, the answer to a
-- run's request, an event of the socket, an action of the user, a timer.
pub data Callback : Type 0 where
  opened : (has_token : Bool) → Option String → Callback
  closed timer_fired : Callback
  loaded : EffectRun → Loaded → Callback
  new_message : SocketMessagePayload → Callback
  delivered_to : (message_id conversation_id : String) → Callback
  read_by : (conversation_id : String) → (message_ids : List String) → Callback
  typing_started : (conversation_id user_id : String) → Text → Callback
  typing_stopped : (conversation_id user_id : String) → Callback
  sent : Option String → Text → Callback
  acknowledged : Bool → Option String → Callback
  read_requested : Option String → String → Callback
  typed : ℕ → Option String → Callback

unfoldable pub react : Callback → Thread → Thread
react (opened has_token conversation_id) = open_thread has_token conversation_id
react closed = close_thread
react timer_fired = on_typing_timer
react (loaded run result) = on_loaded run result
react (new_message msg) = on_new_message msg
react (delivered_to message_id conversation_id) = on_delivered message_id conversation_id
react (read_by conversation_id message_ids) = on_read conversation_id message_ids
react (typing_started conversation_id user_id name) = on_typing_start conversation_id user_id name
react (typing_stopped conversation_id user_id) = on_typing_stop conversation_id user_id
react (sent conversation_id text) = send_message conversation_id text
react (acknowledged success message) = on_send_ack success message
react (read_requested conversation_id id) = request_read conversation_id id
react (typed now conversation_id) = notify_typing now conversation_id

unfoldable pub react_all : List Callback → Thread → Thread
react_all [] t = t
react_all (c ∷ cs) t = react_all cs (react c t)

-- A run's page holds messages of the conversation that it asked for, as getMessageHistory promises.
abbrev pub IsAnswer : Callback → Type 0
IsAnswer (loaded run (page msgs)) = AllOf run.conversation_id msgs
IsAnswer _ = Unit

deliver-conversation_id :
    (id : String) (msg : SocketMessagePayload)
    → (deliver id msg).conversation_id ≡ msg.conversation_id
unfolding deliver
deliver-conversation_id id msg = ground arith

mark_read-conversation_id :
    (ids : List String) (msg : SocketMessagePayload)
    → (mark_read ids msg).conversation_id ≡ msg.conversation_id
unfolding mark_read
mark_read-conversation_id ids msg = ground arith

IsOwn-on_delivered :
    (id conversation_id : String) (t : Thread) → IsOwn t → IsOwn (on_delivered id conversation_id t)
unfolding on_delivered
IsOwn-on_delivered id conversation_id t h =
    elim (Bool-cases (is_of_current conversation_id t.current)) [
      | inl here ↦
          rw here (ShownOf-map t.current (deliver id) (deliver-conversation_id id) t.messages h)
      | inr away ↦ rw away h
    ]

IsOwn-on_read :
    (conversation_id : String) (ids : List String) (t : Thread)
    → IsOwn t
    → IsOwn (on_read conversation_id ids t)
unfolding on_read
IsOwn-on_read conversation_id ids t h =
    elim (Bool-cases (is_of_current conversation_id t.current)) [
      | inl here ↦
          rw here
            (ShownOf-map t.current (mark_read ids) (mark_read-conversation_id ids) t.messages h)
      | inr away ↦ rw away h
    ]

own_none :
    (t : Thread) (msgs : List SocketMessagePayload) → t.current ≡ none → ShownOf t.current msgs
own_none t msgs e = rw e tt

close_thread-current : (t : Thread) → (close_thread t).current ≡ none
unfolding close_thread
close_thread-current t = elim (Option-cases t.current) [
  | inl e ↦ rw e refl
  | inr (run, e) ↦ rw e refl
]

ShownOf-append :
    (run : Option EffectRun) (msgs : List SocketMessagePayload) (msg : SocketMessagePayload)
    → is_of_current msg.conversation_id run ≡ true
    → ShownOf run msgs
    → ShownOf run (msgs ++ msg ∷ [])
unfolding is_of_current
ShownOf-append none msgs msg e h = tt
ShownOf-append (some run) msgs msg e h =
    AllOf-append run.conversation_id msgs msg h
      (ground (arith, e, str_eq_iff msg.conversation_id run.conversation_id))

ShownOf-page :
    (run : EffectRun) (current : Option EffectRun) (msgs : List SocketMessagePayload)
    → is_current run current ≡ true
    → AllOf run.conversation_id msgs
    → ShownOf current (reverse_onto msgs [])
unfolding is_current
ShownOf-page run none msgs e a = tt
ShownOf-page run (some current) msgs e a =
    let same : run.conversation_id ≡ current.conversation_id =
      ground (arith, e, str_eq_iff run.conversation_id current.conversation_id) in
    rw (sym same) (AllOf-reverse_onto run.conversation_id msgs [] a tt)

IsOwn-react : (c : Callback) (t : Thread) → IsAnswer c → IsOwn t → IsOwn (react c t)
unfolding react
IsOwn-react (delivered_to id conversation_id) t a h = IsOwn-on_delivered id conversation_id t h
IsOwn-react (read_by conversation_id ids) t a h = IsOwn-on_read conversation_id ids t h
IsOwn-react (opened has_token none) t a h =
    unfold open_thread in own_none (close_thread t) [] (close_thread-current t)
IsOwn-react (opened has_token (some id)) t a h =
    unfold open_thread in
    elim (Bool-cases has_token) [
      | inl e ↦ rw e tt
      | inr e ↦ rw e (own_none (close_thread t) [] (close_thread-current t))
    ]
IsOwn-react closed t a h =
    own_none (close_thread t) (close_thread t).messages (close_thread-current t)
IsOwn-react timer_fired t a h =
    unfold on_typing_timer in
    elim (Option-cases t.typing_timer) [ inl e ↦ rw e h | inr (timer, e) ↦ rw e h ]
IsOwn-react (loaded run (page msgs)) t a h =
    unfold on_loaded in
    elim (Bool-cases (is_current run t.current)) [
      | inl e ↦ rw e (ShownOf-page run t.current msgs e a)
      | inr e ↦ rw e h
    ]
IsOwn-react (loaded run (failed e)) t a h =
    unfold on_loaded in
    elim (Bool-cases (is_current run t.current)) [ inl e ↦ rw e h | inr e ↦ rw e h ]
IsOwn-react (new_message msg) t a h =
    unfold on_new_message in
    elim (Bool-cases (is_of_current msg.conversation_id t.current)) [
      | inl e ↦ rw e (ShownOf-append t.current t.messages msg e h)
      | inr e ↦ rw e h
    ]
IsOwn-react (typing_started id user name) t a h =
    unfold on_typing_start in
    elim (Bool-cases (is_of_current id t.current)) [ inl e ↦ rw e h | inr e ↦ rw e h ]
IsOwn-react (typing_stopped id user) t a h =
    unfold on_typing_stop in
    elim (Bool-cases (is_of_current id t.current)) [ inl e ↦ rw e h | inr e ↦ rw e h ]
IsOwn-react (sent none text) t a h = unfold send_message in h
IsOwn-react (sent (some id) text) t a h =
    unfold send_message in
    elim (Bool-cases (is_empty (trim text))) [ inl e ↦ rw e h | inr e ↦ rw e h ]
IsOwn-react (acknowledged success message) t a h =
    unfold on_send_ack in elim (Bool-cases (success)) [ inl e ↦ rw e h | inr e ↦ rw e h ]
IsOwn-react (read_requested none id) t a h = unfold request_read in h
IsOwn-react (read_requested (some c) id) t a h = unfold request_read in h
IsOwn-react (typed now none) t a h = unfold notify_typing in h
IsOwn-react (typed now (some c)) t a h = unfold notify_typing in h

-- Whatever happens, in any order, and whenever the answers arrive: while a conversation is open, only
-- its messages are shown, if it was so at first. Each answer holds messages of the conversation that
-- its run asked for.
pub react_all-IsOwn :
    (cs : List Callback) (t : Thread) → All IsAnswer cs → IsOwn t → IsOwn (react_all cs t)
unfolding react_all
react_all-IsOwn [] t a h = h
react_all-IsOwn (c ∷ cs) t a h = react_all-IsOwn cs (react c t) a.1 (IsOwn-react c t a.0 h)
