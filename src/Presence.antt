-- ===== src/Presence.antt =====
-- src/services/presence.service.ts: the sockets of each user, and the user's status in the database.
pub mod Connections
use mathlib.Core.Option
use react_websocket_chat.Prelude.{
  ℕ, suc, String, Bool, true, false, ◌&&◌, not, List, [], ◌∷◌, ◌++◌, map, Option, none, some, any,
  filter, ltb, length, lookup, insert, delete, str_eq, ◌==◌, if◌then◌else◌,
}
use react_websocket_chat.Exec.{Result, ok, and_then, Exec, query, ◌>>=◌}
use react_websocket_chat.Model.{
  ObjectId, User, UserStatus, online, offline, Conversation, Db, includes,
}
use react_websocket_chat.Mongo.{Mongo, cast}

-- Map<string, Set<string>>; a set is the list of its elements, each once.
abbrev pub ActiveConnections : Type 0
ActiveConnections = List (String × List String)

abbrev pub has : String → List String → Bool
has x xs = any (λ y. str_eq y x) xs

-- set.add(x), set.delete(x)
unfoldable pub set_add : String → List String → List String
set_add x xs = if has x xs then xs else xs ++ x ∷ []

unfoldable pub set_delete : String → List String → List String
set_delete x xs = filter (λ y. not (str_eq y x)) xs

unfoldable pub add_connection : String → String → ActiveConnections → Bool × ActiveConnections
add_connection user_id socket_id active = elim (lookup user_id active) [
  | none ↦ (true, insert user_id (socket_id ∷ []) active)
  | some sockets ↦ (length sockets == 0, insert user_id (set_add socket_id sockets) active)
]

unfoldable pub remove_connection : String → String → ActiveConnections → Bool × ActiveConnections
remove_connection user_id socket_id active = elim (lookup user_id active) [
  | none ↦ (true, active)
  | some sockets ↦
      let left = set_delete socket_id sockets in
      let updated = insert user_id left active in
      if length left == 0 then (true, delete user_id updated) else (false, updated)
]

-- !!sockets && sockets.size > 0
abbrev pub is_nonempty : Option (List String) → Bool
is_nonempty none = false
is_nonempty (some sockets) = ltb 0 (length sockets)

unfoldable pub is_user_online : String → ActiveConnections → Bool
is_user_online user_id active = is_nonempty (lookup user_id active)

-- User.findByIdAndUpdate(userId, change, { new: true }): the changed user, if there is one.
unfoldable pub update_user : Mongo → String → (User → User) → Exec Db (Option User)
update_user m user_id change = query (λ _. cast m user_id) >>= λ id db. (
  ok (Option.map change (m.users.find_one (λ u. u.id == id) db.users)),
  record db { users = m.users.update (λ u. u.id == id) change db.users },
)

unfoldable pub set_user_online : Mongo → ℕ → String → Exec Db (Option User)
unfolding update_user
set_user_online m now user_id =
    update_user m user_id (λ u. record u { status = online; updated_at = now })

unfoldable pub set_user_offline : Mongo → ℕ → String → Exec Db (Option User)
unfolding update_user
set_user_offline m now user_id =
    update_user m user_id (λ u. record u { status = offline; last_seen = now; updated_at = now })

abbrev pub id_of : Conversation → ObjectId
id_of c = c.id

unfoldable pub get_user_conversation_room_ids : Mongo → String → Db → Result (List String)
get_user_conversation_room_ids m user_id db = and_then (cast m user_id) λ uid. ok (
    map (λ c. m.to_string (id_of c))
      (m.conversations.find_many (λ c. includes uid c.members) db.conversations))
