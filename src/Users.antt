-- ===== src/Users.antt =====
-- src/services/user.service.ts: the list of users to start a chat with.
pub mod Listing
use react_websocket_chat.Prelude.{
  ℕ, String, ◌≡◌, Bool, true, not, List, ◌∷◌, Option, none, some, map, take, count, ◌&&◌, ◌==◌,
  if◌then◌else◌,
}
use react_websocket_chat.Sanitize.{Text, is_empty}
use react_websocket_chat.Exec.{Result, ok, err, and_then, bad_query}
use react_websocket_chat.Model.{ObjectId, User, UserStatus, Db}
use react_websocket_chat.Mongo.{Mongo, cast}

-- What the query uses of MongoDB beside the interface `Mongo`: { $regex, $options: 'i' }, where a
-- pattern that is no regular expression makes the query fail, and sort({ username: 1 }).
pub record UserQuery : Type 0 where
  pub regex : Text → Option (Text → Bool)
  pub sort_by_username : List User → List User
  pub count-sort_by_username :
      (p : User → Bool) (users : List User) → count p (sort_by_username users) ≡ count p users

-- The fields of select('username email status lastSeen'), and the id.
pub record ListedUser : Type 0 where
  pub id : ObjectId
  pub username : Text
  pub email : Text
  pub status : UserStatus
  pub last_seen : ℕ

abbrev pub select : User → ListedUser
select u = record {
  id = u.id;
  username = u.username;
  email = u.email;
  status = u.status;
  last_seen = u.last_seen;
}

-- query.limit(limit), where 0 is no limit
abbrev pub limited {ℓ} : {A : Type ℓ} → ℕ → List A → List A
limited limit xs = if limit == 0 then xs else take limit xs

abbrev pub or_bad_query {ℓ} : {A : Type ℓ} → Option A → Result A
or_bad_query (some a) = ok a
or_bad_query none = err bad_query

-- if (search) filter.username = …
unfoldable pub username_filter : UserQuery → Option Text → Result (Text → Bool)
username_filter q none = ok (λ _. true)
username_filter q (some search) =
    if is_empty search then ok (λ _. true) else or_bad_query (q.regex search)

abbrev pub is_listed : ObjectId → (Text → Bool) → User → Bool
is_listed caller matches u = not (u.id == caller) && matches u.username

unfoldable pub list_users :
    Mongo → UserQuery → String → Option Text → ℕ → Db → Result (List ListedUser)
unfolding username_filter
list_users m q current_user_id search limit db = and_then (cast m current_user_id) λ caller.
    and_then (username_filter q search) λ matches. ok (
      map select (
        limited limit (q.sort_by_username (m.users.find_many (is_listed caller matches) db.users))))
