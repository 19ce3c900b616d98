-- ===== src/Mongo.antt =====
-- What the services use of mongoose and MongoDB, none of which is code of this repository: the
-- operations are parameters, with their documented behaviour as laws. A collection is the list of
-- its documents in the order in which the database keeps them.
pub mod Laws
use react_websocket_chat.Prelude.{
  ℕ, String, ◌≡◌, Bool, true, List, ◌∷◌, ◌++◌, map, Option, none, some, ◌&&◌, is_some,
  if◌then◌else◌, filter, find, count, Descending, ◌==◌,
}
use react_websocket_chat.Model.{ObjectId, User, Conversation, Message}
use react_websocket_chat.Exec.{Result, ok, err, cast_error}

pub record Collection (Doc : Type 0) : Type 0 where
  -- Model.find(query), Model.findOne(query)
  pub find_many : (Doc → Bool) → List Doc → List Doc
  pub find_one : (Doc → Bool) → List Doc → Option Doc
  -- Model.create(doc)
  pub create : Doc → List Doc → List Doc
  -- Model.updateMany(query, change), Model.findByIdAndUpdate(id, change), doc.save()
  pub update : (Doc → Bool) → (Doc → Doc) → List Doc → List Doc
  -- query.sort({ key: -1 })
  pub sort_desc : (Doc → ℕ) → List Doc → List Doc
  pub find_many_lem : (p : Doc → Bool) (docs : List Doc) → find_many p docs ≡ filter p docs
  pub find_one_lem : (p : Doc → Bool) (docs : List Doc) → find_one p docs ≡ find p docs
  -- A new document stands somewhere among the others, which stay as they are.
  pub create_lem :
      (doc : Doc) (docs : List Doc)
      → (before : List Doc) × (after : List Doc) × (docs ≡ before ++ after)
        × (create doc docs ≡ before ++ doc ∷ after)
  pub update_lem :
      (p : Doc → Bool) (f : Doc → Doc) (docs : List Doc)
      → update p f docs ≡ map (λ doc. if p doc then f doc else doc) docs
  -- A sorted result has the same documents, as often. Ties stand in any order.
  pub count-sort_desc :
      (key : Doc → ℕ) (p : Doc → Bool) (docs : List Doc)
      → count p (sort_desc key docs) ≡ count p docs
  pub sort_desc-Descending : (key : Doc → ℕ) (docs : List Doc) → Descending key (sort_desc key docs)

-- ObjectIds as text: `Types.ObjectId.isValid`, the cast of a query's strings and `id.toString()`.
pub record ObjectIds : Type 0 where
  pub is_valid : String → Bool
  pub parse : String → Option ObjectId
  pub to_string : ObjectId → String
  pub valid_parses : (s : String) → is_valid s ≡ true → is_some (parse s) ≡ true
  pub is_valid-to_string : (id : ObjectId) → is_valid (to_string id) ≡ true
  pub parse-to_string : (id : ObjectId) → parse (to_string id) ≡ some id

pub record Mongo : Type 0 where
  pub users : Collection User
  pub conversations : Collection Conversation
  pub messages : Collection Message
  -- Message.aggregate with a $match and a $group that counts by a key: one entry for each key of
  -- the documents that match.
  pub group_count : (Message → Bool) → (Message → ObjectId) → List Message → List (ObjectId × ℕ)
  pub group_count_lem :
      (p : Message → Bool) (key : Message → ObjectId) (docs : List Message) (id : ObjectId)
      → find (λ entry. entry.0 == id) (group_count p key docs) ≡ (
          if count (λ doc. p doc && key doc == id) docs == 0
          then none
          else some (id, count (λ doc. p doc && key doc == id) docs))
  pub ids : ObjectIds
  pub open ids use *

abbrev pub or_cast_error {ℓ} : {A : Type ℓ} → Option A → Result A
or_cast_error (some a) = ok a
or_cast_error none = err cast_error

-- A query's string, cast to an ObjectId: mongoose throws a CastError if it is none.
abbrev pub cast : Mongo → String → Result ObjectId
cast m s = or_cast_error (m.parse s)
