-- ===== src/Http/Guards.antt =====
-- src/middlewares/auth.middleware.ts and src/middlewares/socketAuth.middleware.ts: who may use the
-- REST routes, and who may open a socket.
use react_websocket_chat.Prelude.{
  ℕ, String, [], ◌∷◌, Option, none, some, ◌⊎◌, inl, inr, ◌==◌, if◌then◌else◌,
}
use react_websocket_chat.Sanitize.{Text, is_empty}
use react_websocket_chat.Exec.{app_error, Result, ok, err}
use react_websocket_chat.Server.{JwtPayload}
use react_websocket_chat.Auth.{Crypto, seconds}

-- text.startsWith(prefix): what follows the prefix
unfoldable pub after_prefix : (prefix : Text) → Text → Option Text
after_prefix [] s = some s
after_prefix (c ∷ prefix) [] = none
after_prefix (c ∷ prefix) (d ∷ s) =
    let rest = after_prefix prefix s in if c == d then rest else none

abbrev pub bearer : Text
bearer = b'B' ∷ b'e' ∷ b'a' ∷ b'r' ∷ b'e' ∷ b'r' ∷ b' ' ∷ []

-- What stands before the first space.
unfoldable pub before_space : Text → Text
before_space [] = []
before_space (c ∷ s) = let rest = before_space s in if c == b' ' then [] else c ∷ rest

-- header.split(' ')[1], of a header that starts with "Bearer "
abbrev pub first_word : Option Text → Option Text
first_word none = none
first_word (some rest) = some (before_space rest)

unfoldable pub bearer_token : Option Text → Option Text
unfolding after_prefix before_space
bearer_token none = none
bearer_token (some header) = first_word (after_prefix bearer header)

abbrev pub or_invalid_token : Option JwtPayload → Result JwtPayload
or_invalid_token (some payload) = ok payload
or_invalid_token none = err (
    app_error
      (record { message = "Authentication failed: invalid or expired token"; status_code = 401 }))

abbrev pub verified : Crypto → ℕ → Option Text → Result JwtPayload
verified lib now none = err (
    app_error (record {
      message = "Authentication required: missing or malformed Authorization header";
      status_code = 401;
    }))
verified lib now (some token) = or_invalid_token (lib.verify (seconds now) token)

-- authMiddleware: the user that a request's Authorization header names, or the error passed on
unfoldable pub auth_middleware : Crypto → ℕ → Option Text → Result JwtPayload
unfolding bearer_token
auth_middleware lib now header = verified lib now (bearer_token header)

-- socket.handshake, its auth.token and its headers.authorization
pub record Handshake : Type 0 where
  pub token : Option Text
  pub authorization : Option Text

abbrev pub nonempty_text : Option Text → Option Text
nonempty_text none = none
nonempty_text (some t) = if is_empty t then none else some t

abbrev pub either_token : Option Text → Option Text → Option Text
either_token none other = other
either_token (some t) other = some t

unfoldable pub handshake_token : Handshake → Option Text
unfolding bearer_token
handshake_token handshake =
    nonempty_text
      (either_token (nonempty_text handshake.token) (bearer_token handshake.authorization))

abbrev pub or_refused : Option JwtPayload → String ⊎ JwtPayload
or_refused (some payload) = inr payload
or_refused none = inl "Authentication failed: invalid or expired token"

abbrev pub admitted : Crypto → ℕ → Option Text → String ⊎ JwtPayload
admitted lib now none = inl "Authentication required: missing token in handshake"
admitted lib now (some token) = or_refused (lib.verify (seconds now) token)

-- socketAuthMiddleware: the message of the refusal, or the user
unfoldable pub socket_auth_middleware : Crypto → ℕ → Handshake → String ⊎ JwtPayload
unfolding handshake_token
socket_auth_middleware lib now handshake = admitted lib now (handshake_token handshake)
