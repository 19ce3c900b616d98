-- ===== src/Markup/Bounds.antt =====
-- The limits of the inputs of AuthPage (frontend-ui/src/pages/AuthPage.tsx) against the schemas of
-- the requests (src/validators/auth.validator.ts).
use react_websocket_chat.Prelude.{
  ℕ, String, ◌≡◌, refl, ap, sym, ◌∙◌, Bool, true, false, not, ◌&&◌, List, [], ◌∷◌, map, Option,
  none, some, all, ltb, length, arith, str_eq, Bool-cases, inl, inr,
}
use react_websocket_chat.Sanitize.{Text, trim, is_empty}
use react_websocket_chat.Exec.{ok}
use react_websocket_chat.Requests.{Zod, signup_schema, login_schema}
use react_websocket_chat.Forms.{AuthForm, login_mode, signup_mode}
use react_websocket_chat.Markup.{
  Node, Attributes, Element, set_username, set_email, set_password, elements, calls,
}
use react_websocket_chat.Markup.Pages.{auth_page}

-- The inputs of a form.
abbrev inputs : Node → List Attributes
inputs node = map (λ (e : Element). e.0) (elements (λ tag attributes. str_eq tag "input") node)

abbrev at_least : Option ℕ → ℕ → Bool
at_least none n = true
at_least (some least) n = not (ltb n least)

abbrev at_most : Option ℕ → ℕ → Bool
at_most none n = true
at_most (some most) n = not (ltb most n)

abbrev value_or_empty : Option Text → Text
value_or_empty none = []
value_or_empty (some value) = value

-- Whether a browser takes the value that an input has.
abbrev pub is_accepted : Attributes → Bool
is_accepted a =
    let value = value_or_empty a.value in
    not (a.is_required && is_empty value)
    && (at_least a.min_length (length value) && at_most a.max_length (length value))

-- The browser submits the form.
abbrev pub can_submit : Node → Bool
can_submit node = all is_accepted (inputs node)

abbrev username_of : AuthForm → Attributes
username_of form = record (calls set_username) {
  value = some form.username;
  min_length = some 3;
  max_length = some 30;
  is_required = true;
}

abbrev email_of : AuthForm → Attributes
email_of form = record (calls set_email) { value = some form.email; is_required = true }

abbrev password_of : AuthForm → Attributes
password_of form = record (calls set_password) {
  value = some form.password;
  min_length = some 6;
  max_length = some 72;
  is_required = true;
}

signup_inputs :
    (form : AuthForm) (error : Option String)
    → form.mode ≡ signup_mode
    → inputs (auth_page form error) ≡ username_of form ∷ email_of form ∷ password_of form ∷ []
unfolding auth_page elements
signup_inputs form none h = rw h refl
signup_inputs form (some message) h = elim (Bool-cases (str_eq message "")) [
  | inl empty ↦ rw (h, empty) refl
  | inr shown ↦ rw (h, shown) refl
]

login_inputs :
    (form : AuthForm) (error : Option String)
    → form.mode ≡ login_mode
    → inputs (auth_page form error) ≡ email_of form ∷ password_of form ∷ []
unfolding auth_page elements
login_inputs form none h = rw h refl
login_inputs form (some message) h = elim (Bool-cases (str_eq message "")) [
  | inl empty ↦ rw (h, empty) refl
  | inr shown ↦ rw (h, shown) refl
]

-- If a browser submits the page in its signup mode, the username has no spaces around it, and zod
-- takes the email as one, then the schema of the request lets the signup through as it is, but for
-- spaces around the email.
pub auth_page-signup_schema :
    (z : Zod) (form : AuthForm) (error : Option String)
    → form.mode ≡ signup_mode
    → can_submit (auth_page form error) ≡ true
    → trim form.username ≡ form.username
    → z.is_email (trim form.email) ≡ true
    → signup_schema z
        (record { username = form.username; email = form.email; password = form.password })
      ≡ ok (record { username = form.username; email = trim form.email; password = form.password })
unfolding signup_schema
auth_page-signup_schema z form error mode submits trimmed email =
    let accepted : all is_accepted (username_of form ∷ email_of form ∷ password_of form ∷ [])
        ≡ true =
      ap (all is_accepted) (sym (signup_inputs form error mode)) ∙ submits in
    let short_name : ltb (length form.username) 3 ≡ false = ground (arith, accepted) in
    let long_name : ltb 30 (length form.username) ≡ false = ground (arith, accepted) in
    let short_password : ltb (length form.password) 6 ≡ false = ground (arith, accepted) in
    let long_password : ltb 72 (length form.password) ≡ false = ground (arith, accepted) in
    rw (trimmed, short_name, long_name, email, short_password, long_password) refl

-- The same in its login mode.
pub auth_page-login_schema :
    (z : Zod) (form : AuthForm) (error : Option String)
    → form.mode ≡ login_mode
    → can_submit (auth_page form error) ≡ true
    → z.is_email (trim form.email) ≡ true
    → login_schema z (record { email = form.email; password = form.password })
      ≡ ok (record { email = trim form.email; password = form.password })
unfolding login_schema
auth_page-login_schema z form error mode submits email =
    let accepted : all is_accepted (email_of form ∷ password_of form ∷ []) ≡ true =
      ap (all is_accepted) (sym (login_inputs form error mode)) ∙ submits in
    let some_password : ltb (length form.password) 1 ≡ false = ground (arith, accepted) in
    rw (email, some_password) refl
