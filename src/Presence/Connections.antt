-- ===== src/Presence/Connections.antt =====
-- The map of connections against what it stands for: the set of the pairs of a user and a socket
-- that are connected.
use mathlib.Core.Bool.{false≢true}
use react_websocket_chat.Prelude.{
  String, ◌≡◌, refl, ap, sym, ◌∙◌, ◌↔◌, Bool, true, false, ◌&&◌, ◌||◌, not, List, [], ◌∷◌, Option,
  none, some, arith, any-append, ltb, length, lookup, insert, lookup-insert, lookup-delete, str_eq,
  str_eq_iff, str_eq_refl, Option-cases, inl, inr,
}
use react_websocket_chat.Presence.{
  ActiveConnections, has, set_add, set_delete, add_connection, remove_connection, is_user_online,
}

abbrev pub sockets_in : Option (List String) → List String
sockets_in none = []
sockets_in (some sockets) = sockets

-- The pair is in the map.
abbrev pub is_connected : String → String → ActiveConnections → Bool
is_connected user_id socket_id active = has socket_id (sockets_in (lookup user_id active))

has-set_add : (x y : String) (xs : List String) → has y (set_add x xs) ≡ (str_eq x y || has y xs)
unfolding set_add
has-set_add x y xs = ground (arith, any-append (λ z. str_eq z y) xs (x ∷ []), str_eq_iff x y)

has-set_delete :
    (x y : String) (xs : List String) → has y (set_delete x xs) ≡ (not (str_eq x y) && has y xs)
unfolding set_delete
has-set_delete x y [] = ground arith
has-set_delete x y (z ∷ xs) =
    ground (arith, has-set_delete x y xs, str_eq_iff z x, str_eq_iff z y, str_eq_iff x y)

has_of_empty : (x : String) (xs : List String) → length xs ≡ 0 → has x xs ≡ false
has_of_empty x [] h = refl
has_of_empty x (y ∷ xs) h = absurd (omega arith)

-- Connecting adds the pair and changes no other.
pub is_connected-add :
    (u s user_id socket_id : String) (active : ActiveConnections)
    → is_connected user_id socket_id (add_connection u s active).1
      ≡ ((str_eq u user_id && str_eq s socket_id) || is_connected user_id socket_id active)
unfolding add_connection
is_connected-add u s user_id socket_id active = elim (Option-cases (lookup u active)) [
  | inl absent ↦ ground (arith, lookup-insert u user_id (s ∷ []) active, str_eq_iff u user_id)
  | inr (sockets, present) ↦ ground (
    arith,
    lookup-insert u user_id (set_add s sockets) active,
    str_eq_iff u user_id,
    has-set_add s socket_id sockets,
  )
]

pub is_connected-remove :
    (u s user_id socket_id : String) (active : ActiveConnections)
    → is_connected user_id socket_id (remove_connection u s active).1
      ≡ (not (str_eq u user_id && str_eq s socket_id) && is_connected user_id socket_id active)
unfolding remove_connection
is_connected-remove u s user_id socket_id active = elim (Option-cases (lookup u active)) [
  | inl absent ↦ ground (arith, str_eq_iff u user_id)
  | inr (sockets, present) ↦
      let left : List String = set_delete s sockets in
      ground (
        arith,
        lookup-insert u user_id left active,
        lookup-delete u user_id (insert u left active),
        str_eq_iff u user_id,
        has-set_delete s socket_id sockets,
        has_of_empty socket_id left,
      )
]

module _ (user_id socket_id : String) (active : ActiveConnections) where
  -- A connection is reported as the first exactly if the user was offline before.
  pub add_connection-first :
      (add_connection user_id socket_id active).0 ≡ not (is_user_online user_id active)
  unfolding add_connection is_user_online
  add_connection-first = ground arith

  -- A disconnection is reported as the last exactly if the user is offline after it.
  pub remove_connection-last :
      (remove_connection user_id socket_id active).0
      ≡ not (is_user_online user_id (remove_connection user_id socket_id active).1)
  unfolding remove_connection is_user_online
  remove_connection-last = elim (Option-cases (lookup user_id active)) [
    | inl absent ↦ ground arith
    | inr (sockets, present) ↦
        let left : List String = set_delete socket_id sockets in
        ground (
          arith,
          lookup-insert user_id user_id left active,
          lookup-delete user_id user_id (insert user_id left active),
          str_eq_refl user_id,
        )
  ]

-- Other users' status does not change.
pub is_user_online-add_ne :
    (u s user_id : String) (active : ActiveConnections)
    → str_eq u user_id ≡ false
    → is_user_online user_id (add_connection u s active).1 ≡ is_user_online user_id active
unfolding add_connection is_user_online
is_user_online-add_ne u s user_id active ne = elim (Option-cases (lookup u active)) [
  | inl absent ↦ ground (arith, lookup-insert u user_id (s ∷ []) active)
  | inr (sockets, present) ↦ ground (arith, lookup-insert u user_id (set_add s sockets) active)
]

pub is_user_online-remove_ne :
    (u s user_id : String) (active : ActiveConnections)
    → str_eq u user_id ≡ false
    → is_user_online user_id (remove_connection u s active).1 ≡ is_user_online user_id active
unfolding remove_connection is_user_online
is_user_online-remove_ne u s user_id active ne = elim (Option-cases (lookup u active)) [
  | inl absent ↦ ground arith
  | inr (sockets, present) ↦
      let left : List String = set_delete s sockets in
      ground
        (arith, lookup-insert u user_id left active, lookup-delete u user_id (insert u left active))
]

has_some : (xs : List String) → ltb 0 (length xs) ≡ true → (s : String) × (has s xs ≡ true)
has_some [] h = absurd (ground arith)
has_some (x ∷ xs) h = (x, rw (str_eq_refl x) refl)

some_has : (s : String) (xs : List String) → has s xs ≡ true → ltb 0 (length xs) ≡ true
some_has s [] h = absurd (cc)
some_has s (x ∷ xs) h = ground arith

-- A user is online exactly if some socket of the user is connected.
pub is_user_online_iff :
    (user_id : String) (active : ActiveConnections)
    → (is_user_online user_id active ≡ true)
      ↔ ((s : String) × (is_connected user_id s active ≡ true))
unfolding is_user_online
is_user_online_iff user_id active = elim (Option-cases (lookup user_id active)) [
  | inl absent ↦ rw absent ((λ h. absurd (cc)), λ c. absurd (false≢true c.1))
  | inr (sockets, present) ↦ rw present ((λ h. has_some sockets h), λ c. some_has c.0 sockets c.1)
]

pub data Event : Type 0 where
  connect disconnect : (user_id socket_id : String) → Event

-- The map after a sequence of events.
unfoldable pub track : List Event → ActiveConnections → ActiveConnections
track [] active = active
track (connect u s ∷ events) active = track events (add_connection u s active).1
track (disconnect u s ∷ events) active = track events (remove_connection u s active).1

-- Whether a socket of a user is connected after a sequence of events, read off the events alone:
-- the last event of this pair decides.
unfoldable pub linked : String → String → Bool → List Event → Bool
linked user_id socket_id before [] = before
linked user_id socket_id before (connect u s ∷ events) =
    linked user_id socket_id ((str_eq u user_id && str_eq s socket_id) || before) events
linked user_id socket_id before (disconnect u s ∷ events) =
    linked user_id socket_id (not (str_eq u user_id && str_eq s socket_id) && before) events

is_connected-track :
    (user_id socket_id : String) (events : List Event) (active : ActiveConnections)
    → is_connected user_id socket_id (track events active)
      ≡ linked user_id socket_id (is_connected user_id socket_id active) events
unfolding track linked
is_connected-track user_id socket_id [] active = refl
is_connected-track user_id socket_id (connect u s ∷ events) active =
    is_connected-track user_id socket_id events (add_connection u s active).1
    ∙ ap (λ b. linked user_id socket_id b events) (is_connected-add u s user_id socket_id active)
is_connected-track user_id socket_id (disconnect u s ∷ events) active =
    is_connected-track user_id socket_id events (remove_connection u s active).1
    ∙ ap (λ b. linked user_id socket_id b events) (is_connected-remove u s user_id socket_id active)

-- After any sequence of events a user is online exactly if some socket's last event of this user is
-- a connection, if there were no connections at first.
pub is_user_online-track_iff :
    (user_id : String) (events : List Event)
    → (is_user_online user_id (track events []) ≡ true)
      ↔ ((s : String) × (linked user_id s false events ≡ true))
is_user_online-track_iff user_id events =
    let (to, from) = is_user_online_iff user_id (track events []) in
    (λ h. let (s, c) = to h in (s, sym (seen s) ∙ c), λ c. from (c.0, seen c.0 ∙ c.1))
  where
    seen : (s : String) → is_connected user_id s (track events []) ≡ linked user_id s false events
    seen s = unfold lookup in is_connected-track user_id s events []
