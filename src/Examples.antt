-- ===== src/Examples.antt =====
-- A small MongoDB in which the theorems' examples run: collections are lists, and an ObjectId is
-- written as any string of that length, after one character.
pub mod Collections
pub mod Sample
pub mod Witnesses
pub mod Sessions
pub mod Tokens
pub mod Accounts
pub mod Clients
pub mod Systems
pub mod Deliveries
pub mod Races
pub mod Screens
use Prim.Native.String.{[], ◌∷◌}
use react_websocket_chat.Prelude.{
  ℕ, zero, suc, String, ◌≡◌, refl, ap, Bool, true, false, Option, none, some, is_some,
}
use react_websocket_chat.Mongo.{ObjectIds, Mongo}
use react_websocket_chat.Examples.Collections.{listed, group_count, group_count_lem}

abbrev pub to_string : ℕ → String
to_string zero = "a"
to_string (suc n) = "a" ∷ to_string n

abbrev pub tail_length : String → ℕ
tail_length [] = 0
tail_length (c ∷ s) = suc (tail_length s)

abbrev pub parse : String → Option ℕ
parse [] = none
parse (c ∷ s) = some (tail_length s)

abbrev pub is_valid : String → Bool
is_valid s = is_some (parse s)

tail_length-to_string : (id : ℕ) → tail_length (to_string id) ≡ suc id
tail_length-to_string zero = refl
tail_length-to_string (suc n) = ap suc (tail_length-to_string n)

pub parse-to_string : (id : ℕ) → parse (to_string id) ≡ some id
parse-to_string zero = refl
parse-to_string (suc n) = ap some (tail_length-to_string n)

pub is_valid-to_string : (id : ℕ) → is_valid (to_string id) ≡ true
is_valid-to_string id = ap is_some (parse-to_string id)

abbrev pub ids : ObjectIds
ids = record {
  is_valid = is_valid;
  parse = parse;
  to_string = to_string;
  valid_parses = λ s h. h;
  is_valid-to_string = is_valid-to_string;
  parse-to_string = parse-to_string;
}

abbrev pub mongo : Mongo
mongo = record {
  users = listed;
  conversations = listed;
  messages = listed;
  group_count = group_count;
  group_count_lem = group_count_lem;
  ids = ids;
}
