-- ===== src/Sockets/Rooms.antt =====
-- The rooms that sockets join by themselves (src/sockets/handlers/presence.handler.ts), against the
-- rooms that `message:send` and `message:read` name, which are the client's texts of an id.
use react_websocket_chat.Prelude.{
  String, ◌≡◌, refl, false, List, [], ◌∷◌, map, some, arith, inl, inr, str_eq, str_eq_iff,
}
use react_websocket_chat.Exec.{ok, Result-cases}
use react_websocket_chat.Model.{ObjectId, Conversation, Db, includes}
use react_websocket_chat.Mongo.{Mongo, cast}
use react_websocket_chat.Presence.{has, id_of, get_user_conversation_room_ids}

other_text :
    (m : Mongo) (room : String) (c id : ObjectId)
    → m.parse room ≡ some c
    → str_eq room (m.to_string c) ≡ false
    → str_eq (m.to_string id) room ≡ false
other_text m room c id p ne = ground (
  arith,
  p,
  ne,
  m.parse-to_string id,
  str_eq_iff (m.to_string id) room,
  str_eq_iff room (m.to_string c),
)

none_named :
    (m : Mongo) (room : String) (c : ObjectId) (cs : List Conversation)
    → m.parse room ≡ some c
    → str_eq room (m.to_string c) ≡ false
    → has room (map (λ x. m.to_string (id_of x)) cs) ≡ false
none_named m room c [] p ne = refl
none_named m room c (x ∷ cs) p ne =
    ground (arith, other_text m room c x.id p ne, none_named m room c cs p ne)

-- A text of a conversation's id that is valid but not the one that `toString` writes names a room
-- that no socket of any member joins by itself.
pub get_user_conversation_room_ids-misses :
    (m : Mongo) (room : String) (c : ObjectId) (user_id : String) (db : Db) (rooms : List String)
    → m.parse room ≡ some c
    → str_eq room (m.to_string c) ≡ false
    → get_user_conversation_room_ids m user_id db ≡ ok rooms
    → has room rooms ≡ false
unfolding get_user_conversation_room_ids
get_user_conversation_room_ids-misses m room c user_id db rooms p ne h =
    elim (Result-cases (cast m user_id)) [
      | inl (e, bad) ↦ absurd (ground (arith, h, bad))
      | inr (uid, good) ↦
          let joined : rooms
              ≡ map (λ x. m.to_string (id_of x))
                  (m.conversations.find_many (λ x. includes uid x.members) db.conversations) =
            ground (arith, h, good) in
          rw joined (
            none_named m room c
              (m.conversations.find_many (λ x. includes uid x.members) db.conversations) p ne)
    ]
