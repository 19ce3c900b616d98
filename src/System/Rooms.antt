-- ===== src/System/Rooms.antt =====
-- The rooms of a socket, by the calls of socket.join and socket.leave
-- (src/sockets/handlers/connection.handler.ts, src/sockets/handlers/presence.handler.ts).
use react_websocket_chat.Prelude.{
  String, ◌≡◌, refl, ◌∙◌, Bool, true, false, ◌&&◌, List, [], ◌∷◌, ◌++◌, map, arith, All, str_eq,
  str_eq_refl,
}
use react_websocket_chat.Presence.{has}
use react_websocket_chat.Server.{ServerEvent, Call, emit_room, emit_others, join, leave, ack}
use react_websocket_chat.System.Privacy.{room_after, is_in_room}

-- The call takes the socket out of the room.
abbrev pub leaves : String → String → Call → Bool
leaves id room (leave i r) = str_eq i id && str_eq r room
leaves id room _ = false

module _ (id room : String) where
  stays : (c : Call) → leaves id room c ≡ false → room_after id room true c ≡ true
  stays (emit_room r e) h = refl
  stays (emit_others i r e) h = refl
  stays (join i rooms) h = ground arith
  stays (leave i r) h = rw h refl
  stays (ack a) h = refl

  stays_all :
      (calls : List Call)
      → All (λ c. leaves id room c ≡ false) calls
      → is_in_room id room true calls ≡ true
  unfolding is_in_room
  stays_all [] h = refl
  stays_all (c ∷ calls) (hc, h) = rw (stays c hc) (stays_all calls h)

  is_in_room-append :
      (was : Bool) (xs ys : List Call)
      → is_in_room id room was (xs ++ ys) ≡ is_in_room id room (is_in_room id room was xs) ys
  unfolding is_in_room
  is_in_room-append was [] ys = refl
  is_in_room-append was (c ∷ xs) ys = is_in_room-append (room_after id room was c) xs ys

  -- A socket in the room stays there while none of the calls takes it out.
  pub still_in_room :
      (xs ys : List Call)
      → is_in_room id room false xs ≡ true
      → All (λ c. leaves id room c ≡ false) ys
      → is_in_room id room false (xs ++ ys) ≡ true
  still_in_room xs ys h k = is_in_room-append false xs ys ∙ rw h (stays_all ys k)

  pub join-enters :
      (calls : List Call) (rooms : List String)
      → has room rooms ≡ true
      → is_in_room id room false (calls ++ join id rooms ∷ []) ≡ true
  unfolding is_in_room
  join-enters calls rooms h =
      is_in_room-append false calls (join id rooms ∷ []) ∙ rw (str_eq_refl id, h) refl

  pub emits-stay :
      (event : ServerEvent) (rooms : List String)
      → All (λ c. leaves id room c ≡ false) (map (λ r. emit_room r event) rooms)
  emits-stay event [] = tt
  emits-stay event (r ∷ rooms) = (refl, emits-stay event rooms)
