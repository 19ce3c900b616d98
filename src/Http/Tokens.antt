-- ===== src/Http/Tokens.antt =====
-- The tokens that the two authentication middlewares accept (src/middlewares/auth.middleware.ts,
-- src/middlewares/socketAuth.middleware.ts).
use react_websocket_chat.Prelude.{
  ℕ, String, ◌≡◌, ◌≢◌, refl, ap, ◌∙◌, false, [], ◌∷◌, ◌++◌, Option, none, some, arith, ◌⊎◌, inl,
  inr, ◌↔◌, any, ◌==◌, Option-cases, Bool-cases,
}
use react_websocket_chat.Sanitize.{Text, is_empty}
use react_websocket_chat.Exec.{app_error, ok, err}
use react_websocket_chat.Server.{JwtPayload}
use react_websocket_chat.Auth.{Crypto, seconds}
use react_websocket_chat.Http.Guards.{
  after_prefix, bearer, before_space, first_word, bearer_token, or_invalid_token, verified,
  auth_middleware, Handshake, nonempty_text, handshake_token, or_refused, admitted,
  socket_auth_middleware,
}

after_prefix-some : (prefix s rest : Text) → after_prefix prefix s ≡ some rest → s ≡ prefix ++ rest
unfolding after_prefix
after_prefix-some [] s rest h = ground (arith, h)
after_prefix-some (c ∷ prefix) [] rest h = cc
after_prefix-some (c ∷ prefix) (d ∷ s) rest h = ground (arith, h, after_prefix-some prefix s rest)

after_prefix-append : (prefix rest : Text) → after_prefix prefix (prefix ++ rest) ≡ some rest
unfolding after_prefix
after_prefix-append [] rest = refl
after_prefix-append (c ∷ prefix) rest = ground (arith, after_prefix-append prefix rest)

before_space-split : (s : Text) → (rest : Text) × (s ≡ before_space s ++ rest)
unfolding before_space
before_space-split [] = ([], refl)
before_space-split (c ∷ s) = elim (Bool-cases (c == b' ')) [
  | inl space ↦ (c ∷ s, rw space refl)
  | inr other ↦ let (rest, e) = before_space-split s in (rest, rw other (ap (λ x. c ∷ x) e))
]

-- A token without a space is the first word.
before_space-word : (s : Text) → any (λ c. c == b' ') s ≡ false → before_space s ≡ s
unfolding before_space
before_space-word [] h = refl
before_space-word (c ∷ s) h = ground (arith, before_space-word s)

pub bearer_token-word :
    (token : Text)
    → any (λ c. c == b' ') token ≡ false
    → bearer_token (some (bearer ++ token)) ≡ some token
unfolding bearer_token
bearer_token-word token h =
    ap first_word (after_prefix-append bearer token) ∙ ap some (before_space-word token h)

first_word-some :
    (o : Option Text) (token : Text)
    → first_word o ≡ some token
    → (s : Text) × (o ≡ some s) × (before_space s ≡ token)
first_word-some none token h = cc
first_word-some (some s) token h = (s, refl, ground (arith, h))

-- The header that a token is taken from.
bearer_token-some :
    (header : Option Text) (token : Text)
    → bearer_token header ≡ some token
    → (rest : Text) × (header ≡ some (bearer ++ (token ++ rest)))
unfolding bearer_token
bearer_token-some none token h = cc
bearer_token-some (some text) token h =
    let (s, e, word) = first_word-some (after_prefix bearer text) token h in
    let (rest, split) = before_space-split s in
    (
      rest,
      ap some (
          after_prefix-some bearer text s e
          ∙ ap (λ x. bearer ++ x) (split ∙ ap (λ x. x ++ rest) word)),
    )

pub auth_middleware_of_token :
    (lib : Crypto) (now : ℕ) (header : Option Text) (token : Text)
    → bearer_token header ≡ some token
    → auth_middleware lib now header ≡ or_invalid_token (lib.verify (seconds now) token)
unfolding auth_middleware
auth_middleware_of_token lib now header token h = ap (verified lib now) h

-- Some word of an Authorization header "Bearer …" is a token that is verified.
abbrev pub IsAuthorised : Crypto → ℕ → Option Text → JwtPayload → Type 0
IsAuthorised lib now header user =
    (token : Text) × (rest : Text) × (header ≡ some (bearer ++ (token ++ rest)))
    × (lib.verify (seconds now) token ≡ some user)

-- The middleware passes on a user whom the token names, or an error of status 401.
pub auth_middleware-cases :
    (lib : Crypto) (now : ℕ) (header : Option Text)
    → ((user : JwtPayload) × (auth_middleware lib now header ≡ ok user)
        × IsAuthorised lib now header user)
      ⊎ ((message : String) × (auth_middleware lib now header
            ≡ err (app_error (record { message = message; status_code = 401 }))))
unfolding auth_middleware
auth_middleware-cases lib now header = elim (Option-cases (bearer_token header)) [
  | inl missing ↦ inr (
    "Authentication required: missing or malformed Authorization header",
    ap (verified lib now) missing,
  )
  | inr (token, found) ↦
      let (rest, shape) = bearer_token-some header token found in
      elim (Option-cases (lib.verify (seconds now) token)) [
        | inl invalid ↦ inr (
          "Authentication failed: invalid or expired token",
          ap (verified lib now) found ∙ ap or_invalid_token invalid,
        )
        | inr (user, valid) ↦ inl (
          user,
          ap (verified lib now) found ∙ ap or_invalid_token valid,
          (token, rest, shape, valid),
        )
      ]
]

accepts-agrees :
    (o : Option JwtPayload) (user : JwtPayload)
    → (or_refused o ≡ inr user) ↔ (or_invalid_token o ≡ ok user)
accepts-agrees none user = (λ h. cc, λ h. cc)
accepts-agrees (some other) user = (λ h. ground (arith, h), λ h. ground (arith, h))

handshake_token-auth :
    (lib : Crypto) (now : ℕ) (handshake : Handshake) (token : Text)
    → handshake_token handshake ≡ some token
    → socket_auth_middleware lib now handshake ≡ or_refused (lib.verify (seconds now) token)
unfolding socket_auth_middleware
handshake_token-auth lib now handshake token h = ap (admitted lib now) h

abbrev in_header : Option Text → Handshake
in_header header = record { token = none; authorization = header }

-- The two answers about what the header holds.
answers-agree :
    (lib : Crypto) (now : ℕ) (o : Option Text) (user : JwtPayload)
    → (admitted lib now (nonempty_text o) ≡ inr user) ↔ (verified lib now o ≡ ok user)
answers-agree lib now none user = (λ h. cc, λ h. cc)
answers-agree lib now (some []) user =
    (λ h. cc, λ h. absurd (none_ok (rw (lib.verify_empty (seconds now)) at h)))
  where
    none_ok : or_invalid_token none ≢ ok user
    none_ok p = cc
answers-agree lib now (some (c ∷ token)) user =
    accepts-agrees (lib.verify (seconds now) (c ∷ token)) user

header-agrees :
    (lib : Crypto) (now : ℕ) (header : Option Text) (user : JwtPayload)
    → (socket_auth_middleware lib now (in_header header) ≡ inr user)
      ↔ (auth_middleware lib now header ≡ ok user)
unfolding auth_middleware socket_auth_middleware handshake_token
header-agrees lib now header user = answers-agree lib now (bearer_token header) user

auth-agrees :
    (lib : Crypto) (now : ℕ) (header : Option Text) (user : JwtPayload) (token : Text)
    → any (λ c. c == b' ') token ≡ false
    → is_empty token ≡ false
    → (socket_auth_middleware lib now (record { token = some token; authorization = header })
        ≡ inr user)
      ↔ (auth_middleware lib now (some (bearer ++ token)) ≡ ok user)
unfolding handshake_token
auth-agrees lib now header user token word some_token =
    rw
      (
        handshake_token-auth lib now (record { token = some token; authorization = header }) token
            (rw (some_token, some_token) refl),
        auth_middleware_of_token lib now (some (bearer ++ token)) token
            (bearer_token-word token word),
      )
      (accepts-agrees (lib.verify (seconds now) token) user)

-- A socket is let in exactly when a REST request with the same token is, and as the same user:
-- whether the handshake has the token in an Authorization header alone, or, without a space and not
-- empty, as its auth.token, which comes before any header.
pub socket_auth_middleware-agrees :
    (lib : Crypto) (now : ℕ) (header : Option Text) (token : Text) (user : JwtPayload)
    → any (λ c. c == b' ') token ≡ false
    → is_empty token ≡ false
    → ((socket_auth_middleware lib now (record { token = none; authorization = header }) ≡ inr user)
        ↔ (auth_middleware lib now header ≡ ok user))
      × ((socket_auth_middleware lib now (record { token = some token; authorization = header })
            ≡ inr user)
          ↔ (auth_middleware lib now (some (bearer ++ token)) ≡ ok user))
socket_auth_middleware-agrees lib now header token user word some_token =
    (header-agrees lib now header user, auth-agrees lib now header user token word some_token)
