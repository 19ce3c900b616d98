-- ===== src/Lifecycle/Stored.antt =====
-- What one connection or disconnection stores of a user (src/services/presence.service.ts and
-- src/sockets/handlers/presence.handler.ts).
use react_websocket_chat.Prelude.{
  ℕ, ◌≡◌, refl, ap, ◌∙◌, Bool, true, false, List, map, some, All, ◌==◌, Bool-cases, inl, inr, ltb,
  length, if◌then◌else◌,
}
use react_websocket_chat.Exec.{ok, continue}
use react_websocket_chat.Model.{is_online, ObjectId, User, UserStatus, online, offline, includes}
use react_websocket_chat.Mongo.{Mongo}
use react_websocket_chat.Presence.{
  add_connection, remove_connection, is_user_online, set_user_online, set_user_offline,
  get_user_conversation_room_ids, id_of,
}
use react_websocket_chat.Server.{Socket, Server, Call}
use react_websocket_chat.Sockets.{
  auto_join_conversation_rooms, handle_user_connect, handle_user_disconnect, announce_online,
  announce_offline,
}
use react_websocket_chat.Lifecycle.{on_connection, on_disconnect}

-- Every document of this user has the status that the map of connections gives.
abbrev pub Follows : ObjectId → Bool → List User → Type 0
Follows id b = All (λ user. user.id ≡ id → is_online user.status ≡ b)

abbrev pub StatusFollows : Mongo → ObjectId → Server → Type 0
StatusFollows m id s = Follows id (is_user_online (m.to_string id) s.active) s.db.users

abbrev pub set_status : ℕ → UserStatus → User → User
set_status now online u = record u { status = online; updated_at = now }
set_status now offline u = record u { status = offline; last_seen = now; updated_at = now }

pub if_snd :
    {A B : Type 0} (b : Bool) (x y : A × B) → (if b then x else y).1 ≡ (if b then x.1 else y.1)
if_snd true x y = refl
if_snd false x y = refl

module _ (m : Mongo) (now : ℕ) (socket : Socket) (owner : ObjectId)
    (token : m.parse socket.user.user_id ≡ some owner) where
  pub joined :
      (s : Server)
      → (cs : List Call) × (auto_join_conversation_rooms m socket s
          ≡ (ok tt, record s { calls = cs }))
  unfolding auto_join_conversation_rooms get_user_conversation_room_ids
  joined s =
      rw token
        (elim (Bool-cases (
          ltb 0 (
            length (
              map (λ c. m.to_string (id_of c))
                (m.conversations.find_many (λ c. includes owner c.members) s.db.conversations))))) [
                  | inl some_room ↦ rw some_room (_, refl)
                  | inr no_room ↦ rw no_room (s.calls, refl)
                ])

  pub announced_online :
      (s : Server)
      → let s' = (announce_online m now socket s).1 in
        (s'.active ≡ s.active)
        × (s'.db.users ≡ m.users.update (λ u. u.id == owner) (set_status now online) s.db.users)
  unfolding announce_online set_user_online get_user_conversation_room_ids
  announced_online s = rw token (refl, refl)

  pub announced_offline :
      (s : Server)
      → let s' = (announce_offline m now socket s).1 in
        (s'.active ≡ s.active)
        × (s'.db.users ≡ m.users.update (λ u. u.id == owner) (set_status now offline) s.db.users)
  unfolding announce_offline set_user_offline get_user_conversation_room_ids
  announced_offline s = rw token (refl, refl)

  -- The map of connections after the first step of each handler.
  abbrev pub added : Server → Server
  added s = record s { active = (add_connection socket.user.user_id socket.id s.active).1 }

  abbrev pub removed : Server → Server
  removed s = record s { active = (remove_connection socket.user.user_id socket.id s.active).1 }

  pub connected :
      (s : Server)
      → (cs : List Call) × (on_connection m now socket s ≡ (
          let s' = added (record s { calls = cs }) in
          if (add_connection socket.user.user_id socket.id s.active).0
          then (announce_online m now socket s').1
          else s'))
  unfolding on_connection handle_user_connect
  connected s =
      let (cs, e) = joined s in
      let s' : Server = added (record s { calls = cs }) in
      (
        cs,
        ap (λ r. (continue r.0 (λ _. handle_user_connect m now socket) r.1).1) e
            ∙ if_snd (add_connection socket.user.user_id socket.id s.active).0
                (announce_online m now socket s') (ok tt, s'),
      )

  pub disconnected :
      (s : Server)
      → on_disconnect m now socket s ≡ (
          if (remove_connection socket.user.user_id socket.id s.active).0
          then (announce_offline m now socket (removed s)).1
          else removed s)
  unfolding on_disconnect handle_user_disconnect
  disconnected s =
      if_snd (remove_connection socket.user.user_id socket.id s.active).0
        (announce_offline m now socket (removed s)) (ok tt, removed s)

  pub after_connection :
      (s : Server)
      → let s' = on_connection m now socket s in
        let (is_first, active') = add_connection socket.user.user_id socket.id s.active in
        (s'.active ≡ active')
        × (s'.db.users ≡ (
            if is_first
            then m.users.update (λ u. u.id == owner) (set_status now online) s.db.users
            else s.db.users))
  after_connection s =
      let (cs, e) = connected s in
      elim (Bool-cases (add_connection socket.user.user_id socket.id s.active).0) [
        | inl first ↦ rw (e, first) (announced_online (added (record s { calls = cs })))
        | inr again ↦ rw (e, again) (refl, refl)
      ]

  pub after_disconnect :
      (s : Server)
      → let s' = on_disconnect m now socket s in
        let (is_last, active') = remove_connection socket.user.user_id socket.id s.active in
        (s'.active ≡ active')
        × (s'.db.users ≡ (
            if is_last
            then m.users.update (λ u. u.id == owner) (set_status now offline) s.db.users
            else s.db.users))
  after_disconnect s =
      elim (Bool-cases (remove_connection socket.user.user_id socket.id s.active).0) [
        | inl last ↦ rw (disconnected s, last) (announced_offline (removed s))
        | inr still ↦ rw (disconnected s, still) (refl, refl)
      ]
