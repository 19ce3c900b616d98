-- ===== src/Requests.antt =====
-- The zod schemas of HTTP requests: src/validators/{auth,user,conversation}.validator.ts, and
-- src/middlewares/validate.middleware.ts. All failures here leave a value behind, so every check of a
-- schema runs and an object has the issues of all its fields, then those of its refinements. A
-- request has the fields that its TypeScript type declares.
pub mod Checked
use Prim.Native.String
use react_websocket_chat.Prelude.{
  ℕ, suc, String, Bool, true, false, ◌&&◌, not, List, [], ◌∷◌, ◌++◌, Option, none, some, ltb,
  length, ◌==◌, if◌then◌else◌,
}
use react_websocket_chat.Sanitize.{Text, trim, is_empty}
use react_websocket_chat.Exec.{
  Issue, Thrown, app_error, zod_error, cast_error, validation_error, duplicate_key, bad_query,
  Result, ok, err,
}
use react_websocket_chat.Model.{ConversationType, is_one_to_one}
use react_websocket_chat.Mongo.{Mongo}
use react_websocket_chat.Conversations.{CreateConversationInput}
use react_websocket_chat.Auth.{SignupInput, LoginInput}

-- What the schemas use of zod: its tests of an email and a date, `Number(value)` where that is a
-- whole number from 0 on, and the texts of its issues.
pub record Zod : Type 0 where
  pub is_email : Text → Bool
  pub parse_datetime : Text → Option ℕ
  pub coerce : Text → Option ℕ
  pub too_small : ℕ → String
  pub too_big : ℕ → String
  pub too_few : ℕ → String
  pub invalid_email : String
  pub invalid_datetime : String
  pub invalid_number : String
  -- ['members', i].join('.')
  pub member_path : ℕ → String

abbrev pub issue_if : Bool → String → String → List Issue
issue_if failed path message = if failed then record { path = path; message = message } ∷ [] else []

-- z.string().min(least).max(most)
abbrev pub between : Zod → String → (least most : ℕ) → Text → List Issue
between z path least most value =
    issue_if (ltb (length value) least) path (z.too_small least)
    ++ issue_if (ltb most (length value)) path (z.too_big most)

-- A schema's outcome: the value, or all the issues.
abbrev pub checked {ℓ} : {A : Type ℓ} → List Issue → A → Result A
checked [] a = ok a
checked (i ∷ is) a = err (zod_error (i ∷ is))

unfoldable pub signup_schema : Zod → SignupInput → Result SignupInput
signup_schema z payload =
    let username : Text = trim payload.username in
    let email : Text = trim payload.email in
    checked
      (between z "username" 3 30 username
        ++ (issue_if (not (z.is_email email)) "email" z.invalid_email
            ++ between z "password" 6 72 payload.password))
      (record { username = username; email = email; password = payload.password })

unfoldable pub login_schema : Zod → LoginInput → Result LoginInput
login_schema z payload =
    let email : Text = trim payload.email in
    checked
      (issue_if (not (z.is_email email)) "email" z.invalid_email
        ++ issue_if (ltb (length payload.password) 1) "password" (z.too_small 1))
      (record { email = email; password = payload.password })

-- z.array(objectId)
unfoldable pub member_issues : Mongo → Zod → ℕ → List String → List Issue
member_issues m z i [] = []
member_issues m z i (id ∷ ids) =
    issue_if (not (m.is_valid id)) (z.member_path i) "Invalid ObjectId"
    ++ member_issues m z (suc i) ids

abbrev pub name_issues : Zod → Option Text → List Issue
name_issues z none = []
name_issues z (some name) = between z "name" 1 100 name

abbrev pub trimmed : Option Text → Option Text
trimmed none = none
trimmed (some name) = some (trim name)

-- !!data.name
abbrev pub is_named : Option Text → Bool
is_named none = false
is_named (some name) = not (is_empty name)

unfoldable pub create_conversation_schema :
    Mongo → Zod → CreateConversationInput → Result CreateConversationInput
unfolding member_issues
create_conversation_schema m z payload =
    let name : Option Text = trimmed payload.name in
    checked
      (name_issues z name
        ++ (issue_if (ltb (length payload.members) 1) "members" (z.too_few 1)
            ++ (member_issues m z 0 payload.members
                ++ (issue_if (is_one_to_one payload.type && not (length payload.members == 1))
                      "members" "1:1 conversations must have exactly one other member"
                    ++ issue_if (not (is_one_to_one payload.type) && not (is_named name)) "name"
                        "Group conversations require a name"))))
      (record payload { name = name })

-- z.coerce.number().int().min(1).max(most).default(20)
unfoldable pub limit_schema : Zod → ℕ → Option Text → ℕ × List Issue
limit_schema z most none = (20, [])
limit_schema z most (some value) = elim (z.coerce value) [
  | none ↦ (0, record { path = "limit"; message = z.invalid_number } ∷ [])
  | some n ↦ (
    n,
    issue_if (ltb n 1) "limit" (z.too_small 1) ++ issue_if (ltb most n) "limit" (z.too_big most),
  )
]

pub record PaginationPayload : Type 0 where
  pub limit : Option Text
  pub before : Option Text

pub record PaginationQuery : Type 0 where
  pub limit : ℕ
  pub before : Option ℕ

abbrev pub datetime_schema : Zod → Option Text → Option ℕ × List Issue
datetime_schema z none = (none, [])
datetime_schema z (some value) = elim (z.parse_datetime value) [
  | none ↦ (none, record { path = "before"; message = z.invalid_datetime } ∷ [])
  | some t ↦ (some t, [])
]

unfoldable pub pagination_query_schema : Zod → PaginationPayload → Result PaginationQuery
unfolding limit_schema
pagination_query_schema z payload =
    let (limit, limit_issues) = limit_schema z 100 payload.limit in
    let (before, before_issues) = datetime_schema z payload.before in
    checked (limit_issues ++ before_issues) (record { limit = limit; before = before })

pub record ListUsersPayload : Type 0 where
  pub search : Option Text
  pub limit : Option Text

pub record ListUsersQuery : Type 0 where
  pub search : Option Text
  pub limit : ℕ

abbrev pub search_issues : Zod → Option Text → List Issue
search_issues z none = []
search_issues z (some search) = between z "search" 1 50 search

unfoldable pub list_users_query_schema : Zod → ListUsersPayload → Result ListUsersQuery
unfolding limit_schema
list_users_query_schema z payload =
    let search : Option Text = trimmed payload.search in
    let (limit, limit_issues) = limit_schema z 50 payload.limit in
    checked (search_issues z search ++ limit_issues) (record { search = search; limit = limit })

-- error.errors.map((e) => `${path}: ${message}`).join('; ')
unfoldable pub join_issues : List Issue → String
join_issues [] = ""
join_issues (i ∷ []) = String.◌++◌ i.path (String.◌++◌ ": " i.message)
join_issues (i ∷ j ∷ is) =
    String.◌++◌ (String.◌++◌ i.path (String.◌++◌ ": " i.message))
      (String.◌++◌ "; " (join_issues (j ∷ is)))

-- validate(schema): a ZodError becomes an AppError, any other exception is passed on.
unfoldable pub validate {ℓ} : {A : Type ℓ} → Result A → Result A
unfolding join_issues
validate (ok parsed) = ok parsed
validate (err (zod_error issues)) = err (
    app_error (record {
      message = String.◌++◌ "Validation error: " (join_issues issues);
      status_code = 400;
    }))
validate (err (app_error e)) = err (app_error e)
validate (err cast_error) = err cast_error
validate (err validation_error) = err validation_error
validate (err duplicate_key) = err duplicate_key
validate (err bad_query) = err bad_query
