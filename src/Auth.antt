-- ===== src/Auth.antt =====
-- src/services/auth.service.ts, with the User schema of src/models/User.model.ts and src/utils/jwt.ts.
-- bcrypt and jsonwebtoken are no code of this repository: their functions are parameters.
pub mod Unique
pub mod Session
use react_websocket_chat.Prelude.{
  ℕ, ◌+◌, ◌/◌, ◌≤◌, ◌<◌, String, ◌≡◌, Bool, true, false, ◌&&◌, ◌||◌, List, [], ◌∷◌, Option, none,
  some, any, ltb, length, ◌==◌, if◌then◌else◌,
}
use react_websocket_chat.Sanitize.{Text, trim, is_empty}
use react_websocket_chat.Exec.{
  app_error, Result, ok, err, and_then, validation_error, duplicate_key, Exec, query, ◌>>=◌, ◌>>◌,
}
use react_websocket_chat.Model.{User, offline, Db}
use react_websocket_chat.Mongo.{Mongo, cast}
use react_websocket_chat.Conversations.{Stamp, or_not_found}
use react_websocket_chat.Server.{JwtPayload}

-- What the code uses of bcrypt and jsonwebtoken, and String.prototype.toLowerCase. Tokens carry
-- their times in seconds.
pub record Crypto : Type 0 where
  -- bcrypt.hash(password, SALT_ROUNDS), with the salt that it draws, and bcrypt.compare
  pub hash : (salt : ℕ) → Text → Text
  pub compare : Text → Text → Bool
  -- jwt.sign(payload, env.jwtSecret, { expiresIn }) and jwt.verify(token, env.jwtSecret). The secret and
  -- `expiresIn` are taken to be valid: with others jwt.sign throws, which is outside this model.
  pub sign : (seconds : ℕ) → JwtPayload → Text
  pub verify : (seconds : ℕ) → Text → Option JwtPayload
  pub expires_in : ℕ
  pub lowercase : Text → Text
  pub compare-hash : (salt : ℕ) (password : Text) → compare password (hash salt password) ≡ true
  pub some_hash : (salt : ℕ) (password : Text) → is_empty (hash salt password) ≡ false
  -- Whether no text of a payload has a lone surrogate, which the token's UTF-8 would not keep.
  pub is_well_formed : JwtPayload → Bool
  pub verify-sign :
      (now later : ℕ) (payload : JwtPayload)
      → is_well_formed payload ≡ true
      → now ≤ later
      → later < now + expires_in
      → verify later (sign now payload) ≡ some payload
  -- A token is base64url with dots.
  pub sign_plain :
      (now : ℕ) (payload : JwtPayload) → any (λ c. c == b' ') (sign now payload) ≡ false
  -- jwt.verify throws for an empty string.
  pub verify_empty : (now : ℕ) → verify now [] ≡ none
  pub some_token : (now : ℕ) (payload : JwtPayload) → is_empty (sign now payload) ≡ false

-- Milliseconds, as Date.now() gives them, in seconds.
abbrev pub seconds : ℕ → ℕ
seconds now = now / 1000

abbrev pub text_eq : Text → Text → Bool
text_eq [] [] = true
text_eq [] (d ∷ t) = false
text_eq (c ∷ s) [] = false
text_eq (c ∷ s) (d ∷ t) = c == d && text_eq s t

pub record SignupInput : Type 0 where
  pub username : Text
  pub email : Text
  pub password : Text

pub record LoginInput : Type 0 where
  pub email : Text
  pub password : Text

pub record AuthResult : Type 0 where
  pub user : User
  pub token : Text

-- The setters of the schema, which mongoose also applies to a query's values.
abbrev pub stored_email : Crypto → Text → Text
stored_email lib email = lib.lowercase (trim email)

abbrev pub has_email : Text → User → Bool
has_email email u = text_eq u.email email

abbrev pub has_username : Text → User → Bool
has_username username u = text_eq u.username username

-- The document that the schema makes of the values.
abbrev pub new_user : Crypto → Stamp → (username email password_hash : Text) → User
new_user lib stamp username email password_hash = record {
  id = stamp.new_id;
  username = trim username;
  email = stored_email lib email;
  password_hash = password_hash;
  status = offline;
  last_seen = stamp.now;
  created_at = stamp.now;
  updated_at = stamp.now;
}

-- The schema's validators, and the unique indexes.
abbrev pub is_invalid : User → Bool
is_invalid u =
    ltb (length u.username) 3
    || ltb 30 (length u.username)
    || is_empty u.email
    || is_empty u.password_hash

abbrev pub is_taken : (email username : Text) → List User → Bool
is_taken email username users = any (λ u. has_email email u || has_username username u) users

-- User.create(…), of the document that the schema made
unfoldable pub create_user : Mongo → User → Exec Db User
create_user m user db =
    if is_invalid user
    then (err validation_error, db)
    else if is_taken user.email user.username db.users
    then (err duplicate_key, db)
    else (ok user, record db { users = m.users.create user db.users })

-- User.findOne({ $or: [{ email }, { username }] })
unfoldable pub find_taken : Mongo → Crypto → SignupInput → Db → Option User
find_taken m lib input db =
    m.users.find_one
      (λ u. has_email (stored_email lib input.email) u || has_username (trim input.username) u)
      db.users

-- if (existing) throw …: the stored email is compared with the email of the request.
unfoldable pub refuse_taken : SignupInput → Option User → Result (Unit {0})
refuse_taken input none = ok tt
refuse_taken input (some existing) = err (
    app_error (record {
      message =
          if text_eq existing.email input.email
          then "An account with this email already exists"
          else "An account with this username already exists";
      status_code = 409;
    }))

-- signToken({ userId, username, email }) beside the user
unfoldable pub issue : Mongo → Crypto → ℕ → User → AuthResult
issue m lib now user = record {
  user = user;
  token =
      lib.sign (seconds now)
        (record { user_id = m.to_string user.id; username = user.username; email = user.email });
}

unfoldable pub signup : Mongo → Crypto → Stamp → (salt : ℕ) → SignupInput → Exec Db AuthResult
unfolding find_taken refuse_taken create_user issue
signup m lib stamp salt input = do
  query (λ db. refuse_taken input (find_taken m lib input db))
  user ←
      create_user m (new_user lib stamp input.username input.email (lib.hash salt input.password))
  query (λ _. ok (issue m lib stamp.now user))

abbrev pub or_unauthorised {ℓ} : {A : Type ℓ} → Option A → Result A
or_unauthorised (some a) = ok a
or_unauthorised none =
    err (app_error (record { message = "Invalid email or password"; status_code = 401 }))

unfoldable pub login : Mongo → Crypto → ℕ → LoginInput → Db → Result AuthResult
unfolding issue
login m lib now input db =
    and_then
      (or_unauthorised (m.users.find_one (has_email (stored_email lib input.email)) db.users))
      λ user.
        and_then
          (or_unauthorised
            (if lib.compare input.password user.password_hash then some user else none))
          λ matched. ok (issue m lib now matched)

unfoldable pub get_profile : Mongo → String → Db → Result User
get_profile m user_id db =
    and_then (cast m user_id)
      λ id. or_not_found "User not found" (m.users.find_one (λ u. u.id == id) db.users)
