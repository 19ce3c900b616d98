-- ===== src/Http/Joins.antt =====
-- When a signup over HTTP succeeds (src/services/auth.service.ts, src/models/User.model.ts).
use react_websocket_chat.Prelude.{
  ℕ, ◌≡◌, refl, ap, sym, ◌∙◌, Bool, false, ◌||◌, List, [], ◌∷◌, Option, none, any, find, arith, ltb,
  length,
}
use react_websocket_chat.Sanitize.{Text, trim, is_empty}
use react_websocket_chat.Sanitize.Trim.{trim_idempotent}
use react_websocket_chat.Exec.{ok}
use react_websocket_chat.Model.{User, Db}
use react_websocket_chat.Mongo.{Mongo}
use react_websocket_chat.Conversations.{Stamp}
use react_websocket_chat.Auth.{
  Crypto, SignupInput, stored_email, has_email, has_username, is_invalid, is_taken, create_user,
  find_taken, refuse_taken, signup,
}
use react_websocket_chat.Auth.Session.{account}
use react_websocket_chat.Requests.{signup_schema, validate}
use react_websocket_chat.Requests.Checked.{signup_schema-ok}
use react_websocket_chat.Http.Accounts.{signup_handler}
use react_websocket_chat.Http.App.{Libraries, post_signup, app, handle}

find_of_not_any : {A : Type 0} (p : A → Bool) (xs : List A) → any p xs ≡ false → find p xs ≡ none
find_of_not_any p [] h = refl
find_of_not_any p (x ∷ xs) h = ground (arith, find_of_not_any p xs)

-- Some account has the email or the username of a parsed request.
abbrev pub is_known : Crypto → SignupInput → List User → Bool
is_known lib input =
    any (λ u. has_email (stored_email lib input.email) u || has_username input.username u)

create_user_of_free :
    (m : Mongo) (user : User) (db : Db)
    → is_invalid user ≡ false
    → is_taken user.email user.username db.users ≡ false
    → (create_user m user db).0 ≡ ok user
unfolding create_user
create_user_of_free m user db valid free = rw (valid, free) refl

module _ (m : Mongo) (lib : Crypto) (stamp : Stamp) (salt : ℕ) (input : SignupInput) (db : Db)
    (trimmed : trim input.username ≡ input.username)
    (free : is_known lib input db.users ≡ false) where
  not_refused : refuse_taken input (find_taken m lib input db) ≡ ok tt
  unfolding refuse_taken find_taken
  not_refused =
      let p : User → Bool =
        λ u. has_email (stored_email lib input.email) u || has_username (trim input.username) u in
      ap (refuse_taken input)
        (m.users.find_one_lem p db.users ∙ find_of_not_any p db.users (rw trimmed free))

  status_of_signup :
      is_invalid (account lib stamp salt input) ≡ false
      → (signup_handler m lib stamp salt input db).0.status ≡ 201
  unfolding signup_handler signup
  status_of_signup valid =
      let made = create_user_of_free m (account lib stamp salt input) db valid (rw trimmed free) in
      rw (not_refused, made) refl

-- A signup that its schema lets through, whose email and username no account has, whose email in
-- lower case is not empty, and which is not limited, is answered with status 201.
pub handle_joins :
    (libs : Libraries) (stamp : Stamp) (salt : ℕ) (payload input : SignupInput)
    (header : Option Text) (db : Db)
    → signup_schema libs.zod payload ≡ ok input
    → is_empty (stored_email libs.crypto input.email) ≡ false
    → is_known libs.crypto input db.users ≡ false
    → (handle libs stamp salt
        (record { authorization = header; is_limited = false; endpoint = post_signup payload })
        db).0.status
      ≡ 201
unfolding app validate
handle_joins libs stamp salt payload input header db valid some_email free =
    let lib : Crypto = libs.crypto in
    let (same, _, _, long, short) = signup_schema-ok libs.zod payload input valid in
    let trimmed : trim input.username ≡ input.username =
      ap (λ i. trim i.username) (sym same)
      ∙ (trim_idempotent payload.username ∙ ap (λ i. i.username) same) in
    let size : length (trim input.username) ≡ length (trim payload.username) =
      ap length (trimmed ∙ sym (ap (λ i. i.username) same)) in
    let not_short : ltb (length (trim input.username)) 3 ≡ false = ground (arith, size, long) in
    let not_long : ltb 30 (length (trim input.username)) ≡ false = ground (arith, size, short) in
    let fits : is_invalid (account lib stamp salt input) ≡ false =
      rw (not_short, not_long, some_email, lib.some_hash salt input.password) refl in
    rw valid (status_of_signup libs.mongo lib stamp salt input db trimmed free fits)
