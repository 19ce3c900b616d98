-- ===== src/Users/Listing.antt =====
-- Whom listUsers shows (src/services/user.service.ts).
use Prim.Native.Nat.{min}
use react_websocket_chat.Prelude.{
  ℕ, ◌<◌, ◌≡◌, ◌≢◌, refl, ap, sym, ◌∙◌, String, Bool, true, false, not, List, [], ◌∷◌, Option, map,
  take, drop, length, count, filter, arith, All, ◌==◌, length-take, take-append-drop, All-split,
  length-filter, if◌then◌else◌, none, some,
}
use react_websocket_chat.Sanitize.{Text}
use react_websocket_chat.Exec.{ok, and_then-ok, ok-injective}
use react_websocket_chat.Model.{ObjectId, User, Db}
use react_websocket_chat.Mongo.{Mongo, cast}
use react_websocket_chat.Users.{
  UserQuery, ListedUser, select, limited, or_bad_query, username_filter, is_listed, list_users,
}

length-map : {A B : Type 0} (f : A → B) (xs : List A) → length (map f xs) ≡ length xs
length-map f [] = refl
length-map f (x ∷ xs) = ground (arith, length-map f xs)

All-map :
    {A B : Type 0} (P : B → Type 0) (f : A → B) (xs : List A)
    → All (λ x. P (f x)) xs
    → All P (map f xs)
All-map P f [] h = tt
All-map P f (x ∷ xs) (h, hs) = (h, All-map P f xs hs)

-- If as many elements pass a test as there are elements, all do.
All-of_count :
    {A : Type 0} (p : A → Bool) (xs : List A)
    → count (λ x. not (p x)) xs ≡ 0
    → All (λ x. p x ≡ true) xs
All-of_count p [] h = tt
All-of_count p (x ∷ xs) h = (ground arith, All-of_count p xs (ground arith))

count-not-filter :
    {A : Type 0} (p : A → Bool) (xs : List A) → count (λ x. not (p x)) (filter p xs) ≡ 0
count-not-filter p [] = refl
count-not-filter p (x ∷ xs) = ground (arith, count-not-filter p xs)

length_eq_count : {A : Type 0} (xs : List A) → length xs ≡ count (λ _. true) xs
length_eq_count [] = refl
length_eq_count (x ∷ xs) = ground (arith, length_eq_count xs)

module _ (q : UserQuery) (p : User → Bool) (users : List User) where
  abbrev found : List User
  found = q.sort_by_username (filter p users)

  found-All : All (λ u. p u ≡ true) found
  found-All =
      All-of_count p found
        (q.count-sort_by_username (λ u. not (p u)) (filter p users) ∙ count-not-filter p users)

  length-found : length found ≡ count p users
  length-found =
      length_eq_count found
      ∙ (q.count-sort_by_username (λ _. true) (filter p users)
          ∙ (sym (length_eq_count (filter p users)) ∙ length-filter p users))

All-take : {A : Type 0} (P : A → Type 0) (n : ℕ) (xs : List A) → All P xs → All P (take n xs)
All-take P n xs h = (All-split P (take n xs) (drop n xs) (rw (take-append-drop n xs) h)).0

limited-bounds :
    (limit : ℕ) (P : ListedUser → Type 0) (us : List User)
    → 0 < limit
    → All (λ u. P (select u)) us
    → All P (map select (limited limit us))
      × (length (map select (limited limit us)) ≡ min limit (length us))
limited-bounds limit P us h hs =
    let big : (limit == 0) ≡ false = ground arith in
    rw big (
      All-map P select (take limit us) (All-take (λ u. P (select u)) limit us hs),
      length-map select (take limit us) ∙ length-take limit us,
    )

abbrev IsListed : ObjectId → (Text → Bool) → ListedUser → Type 0
IsListed caller matches u = (u.id ≢ caller) × (matches u.username ≡ true)

is_listed-IsListed :
    (caller : ObjectId) (matches : Text → Bool) (us : List User)
    → All (λ u. is_listed caller matches u ≡ true) us
    → All (λ u. IsListed caller matches (select u)) us
is_listed-IsListed caller matches [] h = tt
is_listed-IsListed caller matches (u ∷ us) (h, hs) =
    ((λ e. ground (arith, h, e), ground (arith, h)), is_listed-IsListed caller matches us hs)

module _ (q : UserQuery) (caller : ObjectId) (matches : Text → Bool) (users : List User) where
  listing_lem :
      (limit : ℕ)
      → 0 < limit
      → All (IsListed caller matches) (
          map select (limited limit (q.sort_by_username (filter (is_listed caller matches) users))))
        × (length (
              map select
                (limited limit (q.sort_by_username (filter (is_listed caller matches) users))))
            ≡ min limit (count (is_listed caller matches) users))
  listing_lem limit some_limit =
      let (every, size) =
        limited-bounds limit (IsListed caller matches) (found q (is_listed caller matches) users)
          some_limit
          (is_listed-IsListed caller matches (found q (is_listed caller matches) users)
            (found-All q (is_listed caller matches) users)) in
      (every, size ∙ ap (min limit) (length-found q (is_listed caller matches) users))

-- What a search asks of a username: nothing without one, or with an empty one; otherwise a match of
-- the regular expression that it is.
abbrev pub Searches : UserQuery → Option Text → (Text → Bool) → Type 0
Searches q none matches = matches ≡ (λ _. true)
Searches q (some []) matches = matches ≡ (λ _. true)
Searches q (some (c ∷ rest)) matches = q.regex (c ∷ rest) ≡ some matches

or_bad_query-ok :
    (o : Option (Text → Bool)) (matches : Text → Bool)
    → or_bad_query o ≡ ok matches
    → o ≡ some matches
or_bad_query-ok none matches h = cc
or_bad_query-ok (some p) matches h = ap some (ok-injective p matches h)

username_filter-Searches :
    (q : UserQuery) (search : Option Text) (matches : Text → Bool)
    → username_filter q search ≡ ok matches
    → Searches q search matches
unfolding username_filter
username_filter-Searches q none matches h = sym (ok-injective (λ _. true) matches h)
username_filter-Searches q (some []) matches h = sym (ok-injective (λ _. true) matches h)
username_filter-Searches q (some (c ∷ rest)) matches h =
    or_bad_query-ok (q.regex (c ∷ rest)) matches h

-- With a limit of at least 1, the list has nobody but users whose name matches the search, if there
-- is one that is not empty, never the caller, and as many of them as there are, up to the limit.
pub list_users-lists :
    (m : Mongo) (q : UserQuery) (current_user_id : String) (search : Option Text) (limit : ℕ)
    (db : Db) (listed : List ListedUser)
    → 0 < limit
    → list_users m q current_user_id search limit db ≡ ok listed
    → (caller : ObjectId) × (m.parse current_user_id ≡ some caller)
      × (matches : Text → Bool) × Searches q search matches
      × All (λ u. (u.id ≢ caller) × (matches u.username ≡ true)) listed
      × (length listed
          ≡ min limit (count (λ u. if u.id == caller then false else matches u.username) db.users))
unfolding list_users
list_users-lists m q current_user_id search limit db listed some_limit h =
    let (caller, c, h') = and_then-ok (cast m current_user_id) _ listed h in
    let (matches, f, h'') = and_then-ok (username_filter q search) _ listed h' in
    let e : map select
          (limited limit (q.sort_by_username (filter (is_listed caller matches) db.users)))
        ≡ listed =
      rw (sym (m.users.find_many_lem (is_listed caller matches) db.users))
        (ok-injective _ listed h'') in
    let (every, size) = listing_lem q caller matches db.users limit some_limit in
    (
      caller,
      cast-parse m current_user_id caller c,
      matches,
      username_filter-Searches q search matches f,
      rw e at every,
      (rw e at size) ∙ ap (min limit) (count-is_listed caller matches db.users),
    )
  where
    cast-parse : (m : Mongo) (s : String) (id : ObjectId) → cast m s ≡ ok id → m.parse s ≡ some id
    cast-parse m s id h = ground (arith, h)

    count-is_listed :
        (caller : ObjectId) (matches : Text → Bool) (us : List User)
        → count (is_listed caller matches) us
          ≡ count (λ u. if u.id == caller then false else matches u.username) us
    count-is_listed caller matches [] = refl
    count-is_listed caller matches (u ∷ us) = ground (arith, count-is_listed caller matches us)
