-- ===== src/Requests/Checked.antt =====
-- What holds of a request that its schema let through (src/validators/auth.validator.ts).
use react_websocket_chat.Prelude.{
  ℕ, ◌≤◌, String, ◌≡◌, refl, ap, Bool, true, false, not, List, [], ◌∷◌, ◌++◌, arith, ltb, length,
}
use react_websocket_chat.Sanitize.{Text, trim}
use react_websocket_chat.Exec.{
  Issue, app_error, zod_error, cast_error, validation_error, duplicate_key, bad_query, Result, ok,
  err,
}
use react_websocket_chat.Auth.{SignupInput}
use react_websocket_chat.Requests.{
  Zod, issue_if, between, checked, signup_schema, login_schema, validate,
}

append-nil : {A : Type 0} (xs ys : List A) → xs ++ ys ≡ [] → (xs ≡ []) × (ys ≡ [])
append-nil [] ys h = (refl, h)
append-nil (x ∷ xs) ys h = cc

issue_if-nil : (b : Bool) (path message : String) → issue_if b path message ≡ [] → b ≡ false
issue_if-nil true path message h = cc
issue_if-nil false path message h = refl

between-nil :
    (z : Zod) (path : String) (least most : ℕ) (value : Text)
    → between z path least most value ≡ []
    → (least ≤ length value) × (length value ≤ most)
between-nil z path least most value h =
    let (low, high) =
      append-nil (issue_if (ltb (length value) least) path (z.too_small least))
        (issue_if (ltb most (length value)) path (z.too_big most)) h in
    let l : ltb (length value) least ≡ false = issue_if-nil _ path (z.too_small least) low in
    let u : ltb most (length value) ≡ false = issue_if-nil _ path (z.too_big most) high in
    (ground (arith, l), ground (arith, u))

pub checked-ok {ℓ} :
    {A : Type ℓ} (issues : List Issue) (a b : A) → checked issues a ≡ ok b → (issues ≡ []) × (a ≡ b)
checked-ok [] a b h = (refl, ground (arith, h))
checked-ok (i ∷ issues) a b h = cc

pub validate-ok {ℓ} : {A : Type ℓ} (r : Result A) (a : A) → validate r ≡ ok a → r ≡ ok a
unfolding validate
validate-ok (ok b) a h = h
validate-ok (err (zod_error issues)) a h = cc
validate-ok (err (app_error e)) a h = cc
validate-ok (err cast_error) a h = cc
validate-ok (err validation_error) a h = cc
validate-ok (err duplicate_key) a h = cc
validate-ok (err bad_query) a h = cc

-- A signup that its schema lets through.
pub signup_schema-ok :
    (z : Zod) (payload input : SignupInput)
    → signup_schema z payload ≡ ok input
    → (record {
      username = trim payload.username;
      email = trim payload.email;
      password = payload.password;
    }
        ≡ input)
      × (z.is_email (trim payload.email) ≡ true)
      × (6 ≤ length payload.password)
      × (3 ≤ length (trim payload.username))
      × (length (trim payload.username) ≤ 30)
unfolding signup_schema
signup_schema-ok z payload input h =
    let (none_left, same) = checked-ok _ _ input h in
    let (name, rest) = append-nil (between z "username" 3 30 (trim payload.username)) _ none_left in
    let (email, password) =
      append-nil (issue_if (not (z.is_email (trim payload.email))) "email" z.invalid_email) _
        rest in
    let valid : not (z.is_email (trim payload.email)) ≡ false =
      issue_if-nil _ "email" z.invalid_email email in
    let (long, short) = between-nil z "username" 3 30 (trim payload.username) name in
    (
      same,
      ground (arith, valid),
      (between-nil z "password" 6 72 payload.password password).0,
      long,
      short,
    )

-- The email and the password of such a signup pass the schema of logins.
pub login_schema_of_signup :
    (z : Zod) (payload input : SignupInput)
    → signup_schema z payload ≡ ok input
    → login_schema z (record { email = payload.email; password = payload.password })
      ≡ ok (record { email = input.email; password = input.password })
unfolding login_schema
login_schema_of_signup z payload input h =
    let (same, valid, long, _, _) = signup_schema-ok z payload input h in
    let some_password : ltb (length payload.password) 1 ≡ false = ground (arith, long) in
    rw (valid, some_password)
      (ap (λ i. ok (record { email = i.email; password = i.password })) same)
