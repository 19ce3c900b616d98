-- ===== src/Lifecycle/Status.antt =====
-- The status that is stored of a user, against the map of connections (src/services/presence.service.ts
-- and src/sockets/handlers/presence.handler.ts).
use react_websocket_chat.Prelude.{
  ℕ, String, ◌≡◌, refl, ap, sym, ◌∙◌, Bool, true, false, List, [], ◌∷◌, map, arith, All, ◌==◌,
  Bool-cases, inl, inr, Option-cases, lookup, lookup-insert, str_eq_refl, ◌≤◌, str_eq, ltb, length,
  if◌then◌else◌,
}
use react_websocket_chat.Model.{is_online, ObjectId, User, UserStatus, online, offline}
use react_websocket_chat.Mongo.{Mongo}
use react_websocket_chat.Conversations.Membership.{str_eq-to_string}
use react_websocket_chat.Presence.{
  ActiveConnections, set_add, set_delete, add_connection, remove_connection, is_user_online,
}
use react_websocket_chat.Presence.Connections.{
  add_connection-first, remove_connection-last, is_user_online-add_ne, is_user_online-remove_ne,
}
use react_websocket_chat.Server.{Socket, Server}
use react_websocket_chat.Lifecycle.{on_connection, on_disconnect}
use react_websocket_chat.Lifecycle.Stored.{
  Follows, StatusFollows, set_status, after_connection, after_disconnect,
}

set_status-is_online :
    (now : ℕ) (st : UserStatus) (u : User) → is_online (set_status now st u).status ≡ is_online st
set_status-is_online now online u = refl
set_status-is_online now offline u = refl

set_status-id : (now : ℕ) (st : UserStatus) (u : User) → (set_status now st u).id ≡ u.id
set_status-id now online u = refl
set_status-id now offline u = refl

Follows-own :
    (id now : ℕ) (st : UserStatus) (users : List User)
    → Follows id (is_online st) (map (λ u. if u.id == id then set_status now st u else u) users)
Follows-own id now st [] = tt
Follows-own id now st (u ∷ users) =
    (ground (arith, set_status-is_online now st u), Follows-own id now st users)

Follows-other :
    (id owner now : ℕ) (b : Bool) (st : UserStatus) (users : List User)
    → (owner == id) ≡ false
    → Follows id b users
    → Follows id b (map (λ u. if u.id == owner then set_status now st u else u) users)
Follows-other id owner now b st [] ne h = tt
Follows-other id owner now b st (u ∷ users) ne h =
    (ground (arith, set_status-id now st u, h.0), Follows-other id owner now b st users ne h.1)

Follows-step :
    (id owner now : ℕ) (st : UserStatus) (changed b b' : Bool) (users : List User)
    → ((owner == id) ≡ true → changed ≡ true → b' ≡ is_online st)
    → ((owner == id) ≡ true → changed ≡ false → b' ≡ b)
    → ((owner == id) ≡ false → b' ≡ b)
    → Follows id b users
    → Follows id b' (
        if changed
        then map (λ u. if u.id == owner then set_status now st u else u) users
        else users)
Follows-step id owner now st changed b b' users c k o h = elim (Bool-cases (owner == id)) [
  | inr other ↦ elim (Bool-cases changed) [
    | inl e ↦ rw (e, o other) (Follows-other id owner now b st users other h)
    | inr e ↦ rw (e, o other) h
  ]
  | inl own ↦ elim (Bool-cases changed) [
    | inl e ↦
        let same : owner ≡ id = ground arith in rw (e, c own e, same) (Follows-own id now st users)
    | inr e ↦ rw (e, k own e) h
  ]
]

set_add-nonempty : (s : String) (xs : List String) → ltb 0 (length (set_add s xs)) ≡ true
unfolding set_add
set_add-nonempty s [] = refl
set_add-nonempty s (x ∷ xs) = ground arith

length-set_delete : (s : String) (xs : List String) → length (set_delete s xs) ≤ length xs
unfolding set_delete
length-set_delete s [] = omega arith
length-set_delete s (x ∷ xs) = ground (arith, length-set_delete s xs)

pub online_after_add :
    (key socket_id : String) (active : ActiveConnections)
    → is_user_online key (add_connection key socket_id active).1 ≡ true
unfolding is_user_online add_connection
online_after_add key socket_id active = elim (Option-cases (lookup key active)) [
  | inl absent ↦ ground (arith, lookup-insert key key (socket_id ∷ []) active, str_eq_refl key)
  | inr (sockets, present) ↦ ground (
    arith,
    lookup-insert key key (set_add socket_id sockets) active,
    str_eq_refl key,
    set_add-nonempty socket_id sockets,
  )
]

online_before_remove :
    (key socket_id : String) (active : ActiveConnections)
    → (remove_connection key socket_id active).0 ≡ false
    → is_user_online key active ≡ true
unfolding is_user_online remove_connection
online_before_remove key socket_id active h = elim (Option-cases (lookup key active)) [
  | inl absent ↦ ground arith
  | inr (sockets, present) ↦ ground (arith, length-set_delete socket_id sockets)
]

-- A socket of some user connects or disconnects.
pub data LifeEvent : Type 0 where
  connection disconnection : (now : ℕ) → Socket → LifeEvent

unfoldable pub live : Mongo → List LifeEvent → Server → Server
live m [] s = s
live m (connection now socket ∷ events) s = live m events (on_connection m now socket s)
live m (disconnection now socket ∷ events) s = live m events (on_disconnect m now socket s)

abbrev pub socket_of : LifeEvent → Socket
socket_of (connection now socket) = socket
socket_of (disconnection now socket) = socket

-- The token of a socket carries `_id.toString()` of its user, as signup and login write it.
abbrev pub IsSigned : Mongo → LifeEvent → Type 0
IsSigned m event = (owner : ObjectId) × ((socket_of event).user.user_id ≡ m.to_string owner)

module _ (m : Mongo) (id : ObjectId) (now : ℕ) (socket : Socket) (owner : ObjectId)
    (token : socket.user.user_id ≡ m.to_string owner) (s : Server) where
  abbrev key : String
  key = socket.user.user_id

  own_key : (owner == id) ≡ true → m.to_string id ≡ key
  own_key e = let same : owner ≡ id = ground arith in ap m.to_string (sym same) ∙ sym token

  other_key : (owner == id) ≡ false → str_eq key (m.to_string id) ≡ false
  other_key e = rw token (str_eq-to_string m owner id ∙ e)

  StatusFollows-connection :
      StatusFollows m id s → StatusFollows m id (on_connection m now socket s)
  StatusFollows-connection h =
      let (a, u) = after_connection m now socket owner (rw token (m.parse-to_string owner)) s in
      rw (a, u, m.users.update_lem (λ x. x.id == owner) (set_status now online) s.db.users)
        (Follows-step id owner now online (add_connection socket.user.user_id socket.id s.active).0
          (is_user_online (m.to_string id) s.active)
          (is_user_online (m.to_string id)
            (add_connection socket.user.user_id socket.id s.active).1)
          s.db.users (λ e _. rw (own_key e) (online_after_add key socket.id s.active))
          (λ e again. rw (own_key e) (
            ground (
              arith,
              again,
              add_connection-first key socket.id s.active,
              online_after_add key socket.id s.active,
            )))
          (λ e. is_user_online-add_ne key socket.id (m.to_string id) s.active (other_key e)) h)

  StatusFollows-disconnect :
      StatusFollows m id s → StatusFollows m id (on_disconnect m now socket s)
  StatusFollows-disconnect h =
      let (a, u) = after_disconnect m now socket owner (rw token (m.parse-to_string owner)) s in
      rw (a, u, m.users.update_lem (λ x. x.id == owner) (set_status now offline) s.db.users)
        (Follows-step id owner now offline
          (remove_connection socket.user.user_id socket.id s.active).0
          (is_user_online (m.to_string id) s.active)
          (is_user_online (m.to_string id)
            (remove_connection socket.user.user_id socket.id s.active).1)
          s.db.users
          (λ e last.
            rw (own_key e) (ground (arith, last, remove_connection-last key socket.id s.active)))
          (λ e still. rw (own_key e) (
            ground (
              arith,
              still,
              remove_connection-last key socket.id s.active,
              online_before_remove key socket.id s.active,
            )))
          (λ e. is_user_online-remove_ne key socket.id (m.to_string id) s.active (other_key e)) h)

-- Over any sequence of connections and disconnections, handled one after the other: if at first the
-- status that is stored of a user is `online` exactly if the map of connections has a socket of the
-- user, then so it is after them. Every token carries the text of its user's id.
pub live-StatusFollows :
    (m : Mongo) (id : ObjectId) (events : List LifeEvent) (s : Server)
    → All (IsSigned m) events
    → StatusFollows m id s
    → StatusFollows m id (live m events s)
unfolding live
live-StatusFollows m id [] s signed h = h
live-StatusFollows m id (connection now socket ∷ events) s ((owner, token), signed) h =
    live-StatusFollows m id events (on_connection m now socket s) signed
      (StatusFollows-connection m id now socket owner token s h)
live-StatusFollows m id (disconnection now socket ∷ events) s ((owner, token), signed) h =
    live-StatusFollows m id events (on_disconnect m now socket s) signed
      (StatusFollows-disconnect m id now socket owner token s h)
