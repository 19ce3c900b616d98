-- ===== src/Examples/Tokens.antt =====
-- Libraries in which the examples of accounts run. A token is the payload, every number of it raised
-- by 33, behind the lengths of its texts.
use react_websocket_chat.Prelude.{
  ℕ, suc, ◌+◌, ◌-◌, ◌≤◌, ◌<◌, ◌≡◌, refl, ap, ◌∙◌, Bool, true, false, [], ◌∷◌, ◌++◌, Option, none,
  some, arith, any, any-append, map, length, take, drop, ltb, ◌==◌, str_eq, str_eq_iff,
  if◌then◌else◌,
}
use react_websocket_chat.Sanitize.{Text}
use react_websocket_chat.Server.{JwtPayload}
use react_websocket_chat.Auth.{Crypto, text_eq}
use react_websocket_chat.Auth.Unique.{text_eq_refl}
use react_websocket_chat.Requests.{Zod}
use react_websocket_chat.Users.{UserQuery}
use react_websocket_chat.Http.App.{Libraries}
use react_websocket_chat.Examples.{mongo, to_string, tail_length}

abbrev pub hash : ℕ → Text → Text
hash salt password = suc salt ∷ password

abbrev pub compare : Text → Text → Bool
compare password [] = false
compare password (salt ∷ hashed) = text_eq password hashed

abbrev raise : Text → Text
raise = map {A = ℕ} (λ c. c + 33)

abbrev lower : Text → Text
lower = map {A = ℕ} (λ c. c - 33)

abbrev pub sign : ℕ → JwtPayload → Text
sign now p =
    (now + 33)
    ∷ (tail_length p.user_id + 33)
    ∷ (length p.username + 33)
    ∷ (raise p.username ++ raise p.email)

-- The payload of a token that is valid for 100 seconds.
abbrev read_token : ℕ → ℕ → ℕ → Text → JwtPayload
read_token signed id size texts = record {
  user_id = to_string (id - 34);
  username = lower (take (size - 33) texts);
  email = lower (drop (size - 33) texts);
}

abbrev pub verify : ℕ → Text → Option JwtPayload
verify now [] = none
verify now (signed ∷ []) = none
verify now (signed ∷ id ∷ []) = none
verify now (signed ∷ id ∷ size ∷ texts) =
    if ltb now ((signed - 33) + 100) then some (read_token signed id size texts) else none

abbrev pub is_well_formed : JwtPayload → Bool
is_well_formed p = str_eq (to_string (tail_length p.user_id - 1)) p.user_id

lower-raise : (s : Text) → lower (raise s) ≡ s
lower-raise [] = refl
lower-raise (c ∷ s) = ground (arith, lower-raise s)

take-raise : (s t : Text) → take (length s) (raise s ++ t) ≡ raise s
take-raise [] t = refl
take-raise (c ∷ s) t = ground (arith, take-raise s t)

drop-raise : (s t : Text) → drop (length s) (raise s ++ t) ≡ t
drop-raise [] t = refl
drop-raise (c ∷ s) t = ground (arith, drop-raise s t)

raise_plain : (s : Text) → any (λ c. c == b' ') (raise s) ≡ false
raise_plain [] = refl
raise_plain (c ∷ s) = ground (arith, raise_plain s)

pub verify-sign :
    (now later : ℕ) (p : JwtPayload)
    → is_well_formed p ≡ true
    → now ≤ later
    → later < now + 100
    → verify later (sign now p) ≡ some p
verify-sign now later p formed before fresh =
    let id : to_string (tail_length p.user_id - 1) ≡ p.user_id = (str_eq_iff _ _).0 formed in
    let size : (length p.username + 33) - 33 ≡ length p.username = omega arith in
    let cut : (tail_length p.user_id + 33) - 34 ≡ tail_length p.user_id - 1 = omega arith in
    let name : lower (take ((length p.username + 33) - 33) (raise p.username ++ raise p.email))
        ≡ p.username =
      ap (λ n. lower (take n (raise p.username ++ raise p.email))) size
      ∙ (ap lower (take-raise p.username (raise p.email)) ∙ lower-raise p.username) in
    let email : lower (drop ((length p.username + 33) - 33) (raise p.username ++ raise p.email))
        ≡ p.email =
      ap (λ n. lower (drop n (raise p.username ++ raise p.email))) size
      ∙ (ap lower (drop-raise p.username (raise p.email)) ∙ lower-raise p.email) in
    let alive : ltb later (((now + 33) - 33) + 100) ≡ true = ground (arith, fresh) in
    rw (alive, cut, id, name, email) refl

pub sign_plain : (now : ℕ) (p : JwtPayload) → any (λ c. c == b' ') (sign now p) ≡ false
sign_plain now p =
    let texts = any-append (λ c. c == b' ') (raise p.username) (raise p.email) in
    ground (arith, texts, raise_plain p.username, raise_plain p.email)

abbrev pub crypto : Crypto
crypto = record {
  hash = hash;
  compare = compare;
  sign = sign;
  verify = verify;
  expires_in = 100;
  lowercase = λ s. s;
  compare-hash = λ salt password. text_eq_refl password;
  some_hash = λ salt password. refl;
  is_well_formed = is_well_formed;
  verify-sign = verify-sign;
  sign_plain = sign_plain;
  verify_empty = λ now. refl;
  some_token = λ now payload. refl;
}

-- An email has an "@"; no text is a date or a number.
abbrev pub zod : Zod
zod = record {
  is_email = any (λ c. c == b'@');
  parse_datetime = λ s. none;
  coerce = λ s. none;
  too_small = λ n. "Too small";
  too_big = λ n. "Too big";
  too_few = λ n. "Too few";
  invalid_email = "Invalid email";
  invalid_datetime = "Invalid datetime";
  invalid_number = "Expected number";
  member_path = λ i. "members";
}

-- A regular expression matches the texts that start with its first character.
abbrev pub starts_like : Text → Text → Bool
starts_like (c ∷ s) (d ∷ t) = c == d
starts_like _ _ = true

abbrev pub user_query : UserQuery
user_query = record {
  regex = λ s. some (starts_like s);
  sort_by_username = λ us. us;
  count-sort_by_username = λ p us. refl;
}

abbrev pub libs : Libraries
libs = record { mongo = mongo; crypto = crypto; zod = zod; user_query = user_query }
