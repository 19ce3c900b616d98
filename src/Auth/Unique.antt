-- ===== src/Auth/Unique.antt =====
-- No two accounts share an email or a username (src/services/auth.service.ts and the unique indexes
-- of src/models/User.model.ts).
use react_websocket_chat.Prelude.{
  ◌≤◌, ◌≡◌, refl, Bool, true, false, ◌||◌, List, [], ◌∷◌, arith, any, count, Bool-cases, inl, inr,
}
use react_websocket_chat.Sanitize.{Text}
use react_websocket_chat.Exec.{Thrown, ok, err, Result-cases}
use react_websocket_chat.Model.{User, Db}
use react_websocket_chat.Mongo.{Mongo}
use react_websocket_chat.Mongo.Laws.{count-create}
use react_websocket_chat.Auth.{text_eq, has_email, has_username, is_taken, create_user}

pub text_eq_refl : (s : Text) → text_eq s s ≡ true
text_eq_refl [] = refl
text_eq_refl (c ∷ s) = ground (arith, text_eq_refl s)

pub eq_of_text_eq : (s t : Text) → text_eq s t ≡ true → s ≡ t
eq_of_text_eq [] [] h = refl
eq_of_text_eq [] (d ∷ t) h = cc
eq_of_text_eq (c ∷ s) [] h = cc
eq_of_text_eq (c ∷ s) (d ∷ t) h = ground (arith, eq_of_text_eq s t)

-- No two documents have the same email, or the same username.
pub record HasUniqueNames (users : List User) : Type 0 where
  pub emails : (email : Text) → count (has_email email) users ≤ 1
  pub usernames : (username : Text) → count (has_username username) users ≤ 1

count-zero_of_any :
    (p q : User → Bool) (users : List User)
    → any (λ u. p u || q u) users ≡ false
    → (count p users ≡ 0) × (count q users ≡ 0)
count-zero_of_any p q [] h = (refl, refl)
count-zero_of_any p q (u ∷ users) h = ground (arith, count-zero_of_any p q users)

-- A new document with a key that none of the others has.
count-fresh-le-one :
    (key : User → Text) (m : Mongo) (user : User) (users : List User)
    → count (λ u. text_eq (key u) (key user)) users ≡ 0
    → ((t : Text) → count (λ u. text_eq (key u) t) users ≤ 1)
    → (t : Text) → count (λ u. text_eq (key u) t) (m.users.create user users) ≤ 1
count-fresh-le-one key m user users fresh h t = elim (Bool-cases (text_eq (key user) t)) [
  | inl same ↦
      let e : key user ≡ t = eq_of_text_eq (key user) t same in
      ground (arith, count-create m.users (λ u. text_eq (key u) t) user users, rw e at fresh)
  | inr other ↦ ground (arith, count-create m.users (λ u. text_eq (key u) t) user users, h t)
]

module _ (m : Mongo) (user : User) (db : Db) where
  pub create_user-ok :
      (u : User)
      → (create_user m user db).0 ≡ ok u
      → (u ≡ user)
        × (is_taken user.email user.username db.users ≡ false)
        × ((create_user m user db).1 ≡ record db { users = m.users.create user db.users })
  unfolding create_user
  create_user-ok u h = ground (arith, h)

  pub create_user_atomic :
      (e : Thrown) → (create_user m user db).0 ≡ err e → (create_user m user db).1 ≡ db
  unfolding create_user
  create_user_atomic e h = ground (arith, h)

  -- Creating an account keeps emails and usernames unique, also where the check of the service was
  -- out of date: the index refuses the document.
  pub create_user-HasUniqueNames :
      HasUniqueNames db.users → HasUniqueNames (create_user m user db).1.users
  create_user-HasUniqueNames h = elim (Result-cases (create_user m user db).0) [
    | inl (e, failed) ↦ rw (create_user_atomic e failed) h
    | inr (u, done) ↦
        let (_, free, stored) = create_user-ok u done in
        let (no_email, no_name) =
          count-zero_of_any (has_email user.email) (has_username user.username) db.users free in
        rw stored (record {
          emails = count-fresh-le-one (λ x. x.email) m user db.users no_email h.emails;
          usernames = count-fresh-le-one (λ x. x.username) m user db.users no_name h.usernames;
        })
  ]
