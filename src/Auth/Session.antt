-- ===== src/Auth/Session.antt =====
-- What an account made by `signup` is good for (src/services/auth.service.ts).
use mathlib.Core.Option
use react_websocket_chat.Prelude.{
  map, find-map, ℕ, ◌+◌, ◌/◌, ◌≤◌, ◌<◌, ◌≡◌, refl, ap, sym, ◌∙◌, Bool, true, false, ◌||◌, List, [],
  ◌∷◌, none, some, arith, any, find, ◌==◌, ==_refl, Bool-cases, Option-cases, inl, inr, ◌⊎◌,
}
use react_websocket_chat.Exec.{continue, continue-ok, ok-injective, app_error, Result, ok, err}
use react_websocket_chat.Model.{ObjectId, User, Db}
use react_websocket_chat.Mongo.{Mongo}
use react_websocket_chat.Mongo.Laws.{find-create}
use react_websocket_chat.Conversations.{Stamp}
use react_websocket_chat.Server.{JwtPayload}
use react_websocket_chat.Auth.{
  Crypto, seconds, SignupInput, LoginInput, AuthResult, stored_email, has_email, has_username,
  new_user, create_user, find_taken, refuse_taken, issue, signup, login, get_profile,
}
use react_websocket_chat.Auth.Unique.{text_eq_refl, create_user-ok}

find_of_not-any :
    (p q : User → Bool) (users : List User)
    → any (λ u. p u || q u) users ≡ false
    → find p users ≡ none
find_of_not-any p q [] h = refl
find_of_not-any p q (u ∷ users) h = ground (arith, find_of_not-any p q users)

-- The account that a request asks for.
abbrev pub account : Crypto → Stamp → (salt : ℕ) → SignupInput → User
account lib stamp salt input =
    new_user lib stamp input.username input.email (lib.hash salt input.password)

abbrev pub payload_of : Mongo → User → JwtPayload
payload_of m u = record { user_id = m.to_string u.id; username = u.username; email = u.email }

login_of_found :
    (m : Mongo) (lib : Crypto) (later : ℕ) (input : LoginInput) (db : Db) (u : User)
    → m.users.find_one (has_email (stored_email lib input.email)) db.users ≡ some u
    → lib.compare input.password u.password_hash ≡ true
    → login m lib later input db ≡ ok (issue m lib later u)
unfolding login
login_of_found m lib later input db u found matches = rw (found, matches)

abbrev unauthorised : Result AuthResult
unauthorised = err (app_error (record { message = "Invalid email or password"; status_code = 401 }))

login_of_unknown :
    (m : Mongo) (lib : Crypto) (now : ℕ) (input : LoginInput) (db : Db)
    → m.users.find_one (has_email (stored_email lib input.email)) db.users ≡ none
    → login m lib now input db ≡ unauthorised
unfolding login
login_of_unknown m lib now input db unknown = rw unknown

login_of_wrong :
    (m : Mongo) (lib : Crypto) (now : ℕ) (input : LoginInput) (db : Db) (u : User)
    → m.users.find_one (has_email (stored_email lib input.email)) db.users ≡ some u
    → lib.compare input.password u.password_hash ≡ false
    → login m lib now input db ≡ unauthorised
unfolding login
login_of_wrong m lib now input db u found wrong = rw (found, wrong)

get_profile_of_found :
    (m : Mongo) (id : ObjectId) (db : Db) (u : User)
    → m.users.find_one (λ x. x.id == id) db.users ≡ some u
    → get_profile m (m.to_string id) db ≡ ok u
unfolding get_profile
get_profile_of_found m id db u found = rw (m.parse-to_string id, found)

-- The same account, whatever its status and times are.
pub record KeepsAccount (u v : User) : Type 0 where
  pub id : v.id ≡ u.id
  pub username : v.username ≡ u.username
  pub email : v.email ≡ u.email
  pub password_hash : v.password_hash ≡ u.password_hash

-- A search for an id or an email finds the changed account.
module _ (m : Mongo) (change : User → User) (keep : (x : User) → KeepsAccount x (change x)) where
  find_changed :
      (p : User → Bool) (users users' : List User) (u : User)
      → ((x : User) → p (change x) ≡ p x)
      → users' ≡ map change users
      → find p users ≡ some u
      → m.users.find_one p users' ≡ some (change u)
  find_changed p users users' u blind changed found =
      m.users.find_one_lem p users'
      ∙ (ap (find p) changed ∙ (find-map p change blind users ∙ ap (Option.map change) found))

module _ (m : Mongo) (lib : Crypto) (stamp : Stamp) (salt : ℕ) (input : SignupInput)
    (db db' : Db) where
  pub signup-ok :
      (r : AuthResult)
      → signup m lib stamp salt input db ≡ (ok r, db')
      → (r ≡ issue m lib stamp.now (account lib stamp salt input))
        × (find (has_email (stored_email lib input.email)) db.users ≡ none)
        × (db' ≡ record db { users = m.users.create (account lib stamp salt input) db.users })
  unfolding signup
  signup-ok r h =
      let user : User = account lib stamp salt input in
      let (_, free, h') =
        continue-ok (refuse_taken input (find_taken m lib input db))
          (λ _ s.
            continue (create_user m user s).0 (λ u s'. (ok (issue m lib stamp.now u), s'))
              (create_user m user s).1)
          db r db' h in
      let (u, done, h'') =
        continue-ok (create_user m user db).0 (λ u s'. (ok (issue m lib stamp.now u), s'))
          (create_user m user db).1 r db' h' in
      let (same, untaken, stored) = create_user-ok m user db u done in
      (
        sym (ok-injective (issue m lib stamp.now u) r (ap (λ x. x.0) h''))
            ∙ ap (issue m lib stamp.now) same,
        find_of_not-any (has_email user.email) (has_username user.username) db.users untaken,
        sym (ap (λ x. x.1) h'') ∙ stored,
      )

  -- What a signup answers holds for the session that follows, while the users are those that it left,
  -- up to their status and times: the email and the password log in, at any later time, as the same
  -- user; the token, until it expires, is verified as naming this user; and the profile of the user
  -- that it names is this user, if the new id was free and the names have no lone surrogate.
  pub signup-opens_session :
      (r : AuthResult) (later : ℕ) (change : User → User) (now : Db)
      → signup m lib stamp salt input db ≡ (ok r, db')
      → ((x : User) → KeepsAccount x (change x))
      → now.users ≡ map change db'.users
      → find (λ u. u.id == stamp.new_id) db.users ≡ none
      → lib.is_well_formed (payload_of m (account lib stamp salt input)) ≡ true
      → stamp.now / 1000 ≤ later / 1000
      → later / 1000 < stamp.now / 1000 + lib.expires_in
      → (login m lib later (record { email = input.email; password = input.password }) now
          ≡ ok (issue m lib later (change r.user)))
        × (p : JwtPayload) × (lib.verify (seconds later) r.token ≡ some p)
        × (get_profile m p.user_id now ≡ ok (change r.user))
  unfolding issue
  signup-opens_session r later change now h keep changed unused formed before fresh =
      let user : User = account lib stamp salt input in
      let (same, no_email, stored) = signup-ok r h in
      let changed' : now.users ≡ map change (m.users.create user db.users) =
        changed ∙ ap (λ d. map change d.users) stored in
      rw same (
        login_of_found m lib later (record { email = input.email; password = input.password }) now
            (change user)
            (find_changed m change keep (has_email user.email) (m.users.create user db.users)
              now.users user (λ x. rw (keep x).email refl) changed'
              (find-create m.users (has_email user.email) user db.users no_email
                (text_eq_refl user.email)))
            (rw (keep user).password_hash (lib.compare-hash salt input.password)),
        payload_of m user,
        lib.verify-sign (seconds stamp.now) (seconds later) (payload_of m user) formed before fresh,
        get_profile_of_found m stamp.new_id now (change user) (
            find_changed m change keep (λ x. x.id == stamp.new_id) (m.users.create user db.users)
              now.users user (λ x. rw (keep x).id refl) changed'
              (find-create m.users (λ x. x.id == stamp.new_id) user db.users unused
                (==_refl stamp.new_id))),
      )

-- A login has two outcomes. If some account has the email, and the password matches the hash of the
-- first such, it answers this account. Otherwise the answer is the same error, whether the email is
-- unknown or the password wrong.
pub login-outcome :
    (m : Mongo) (lib : Crypto) (now : ℕ) (input : LoginInput) (db : Db)
    → ((u : User) × (find (has_email (stored_email lib input.email)) db.users ≡ some u)
        × (lib.compare input.password u.password_hash ≡ true)
        × (login m lib now input db ≡ ok (issue m lib now u)))
      ⊎ (((u : User)
            → find (has_email (stored_email lib input.email)) db.users ≡ some u
            → lib.compare input.password u.password_hash ≡ false)
          × (login m lib now input db
              ≡ err (
                  app_error (record { message = "Invalid email or password"; status_code = 401 }))))
login-outcome m lib now input db =
    let p : User → Bool = has_email (stored_email lib input.email) in
    elim (Option-cases (find p db.users)) [
      | inl unknown ↦ inr (
        (λ u e. cc),
        login_of_unknown m lib now input db (m.users.find_one_lem p db.users ∙ unknown),
      )
      | inr (u, found) ↦ elim (Bool-cases (lib.compare input.password u.password_hash)) [
        | inl matches ↦ inl (
          u,
          found,
          matches,
          login_of_found m lib now input db u (m.users.find_one_lem p db.users ∙ found) matches,
        )
        | inr wrong ↦ inr (
          (λ u' e. let same : u ≡ u' = ground (arith, e, found) in rw (sym same) wrong),
          login_of_wrong m lib now input db u (m.users.find_one_lem p db.users ∙ found) wrong,
        )
      ]
    ]
