-- ===== src/Conversations/Membership.antt =====
-- The membership checks of src/services/conversation.service.ts.
use react_websocket_chat.Prelude.{
  String, ◌≡◌, refl, ap, ◌∙◌, ◌↔◌, Bool, true, false, List, [], ◌∷◌, map, some, Option-cases,
  is_some, arith, find, any, str_eq, str_eq_iff, ◌==◌, Bool-cases, inl, inr,
}
use react_websocket_chat.Exec.{Result, ok, err}
use react_websocket_chat.Model.{ObjectId, Message, Db}
use react_websocket_chat.Mongo.{Mongo, cast}
use react_websocket_chat.Conversations.{
  cast_all, is_member_of, find_membership, or_not_found, assert_membership, is_conversation_member,
}

module _ (m : Mongo) where
  pub cast-to_string : (id : ObjectId) → cast m (m.to_string id) ≡ ok id
  cast-to_string id = rw (m.parse-to_string id)

  -- Different ids have different texts.
  pub str_eq-to_string : (a b : ObjectId) → str_eq (m.to_string a) (m.to_string b) ≡ (a == b)
  str_eq-to_string a b =
      ground (
        arith,
        str_eq_iff (m.to_string a) (m.to_string b),
        m.parse-to_string a,
        m.parse-to_string b,
      )

  pub cast_all-map : (ids : List ObjectId) → cast_all m (map m.to_string ids) ≡ ok ids
  unfolding cast_all
  cast_all-map [] = refl
  cast_all-map (id ∷ ids) = rw (m.parse-to_string id, cast_all-map ids)

module _ (m : Mongo) (conversation_id user_id : String) (db : Db) {c u : ObjectId}
    (parsed_c : m.parse conversation_id ≡ some c) (parsed_u : m.parse user_id ≡ some u) where
  pub find_membership_lem :
      find_membership m conversation_id user_id db ≡ ok (find (is_member_of c u) db.conversations)
  unfolding find_membership
  find_membership_lem =
      rw (parsed_c, parsed_u, m.conversations.find_one_lem (is_member_of c u) db.conversations)

  pub is_conversation_member_lem :
      m.is_valid conversation_id ≡ true
      → is_conversation_member m conversation_id user_id db
        ≡ ok (is_some (find (is_member_of c u) db.conversations))
  unfolding is_conversation_member
  is_conversation_member_lem valid = rw (valid, find_membership_lem)

  pub assert_membership_lem :
      m.is_valid conversation_id ≡ true
      → assert_membership m conversation_id user_id db
        ≡ or_not_found "Conversation not found" (find (is_member_of c u) db.conversations)
  unfolding assert_membership
  assert_membership_lem valid = rw (valid, find_membership_lem)

-- A text of 24 other characters, or an id that no text stands for: nobody is a member.
pub is_conversation_member-invalid :
    (m : Mongo) (conversation_id user_id : String) (db : Db)
    → m.is_valid conversation_id ≡ false
    → is_conversation_member m conversation_id user_id db ≡ ok false
unfolding is_conversation_member
is_conversation_member-invalid m conversation_id user_id db invalid = rw invalid

-- Some conversation has this id and this member.
abbrev pub IsMember : Mongo → String → String → Db → Type 0
IsMember m conversation_id user_id db =
    (c : ObjectId) × (u : ObjectId) × (m.is_valid conversation_id ≡ true)
    × (m.parse conversation_id ≡ some c)
    × (m.parse user_id ≡ some u)
    × (any (is_member_of c u) db.conversations ≡ true)

pub is_some-find : {A : Type 0} (p : A → Bool) (xs : List A) → is_some (find p xs) ≡ any p xs
is_some-find p [] = refl
is_some-find p (x ∷ xs) = ground (arith, is_some-find p xs)

module _ (m : Mongo) (conversation_id user_id : String) (db : Db) where
  IsMember-sound :
      is_conversation_member m conversation_id user_id db ≡ ok true
      → IsMember m conversation_id user_id db
  IsMember-sound h = elim (Bool-cases (m.is_valid conversation_id)) [
    | inr invalid ↦ cc (is_conversation_member-invalid m conversation_id user_id db invalid)
    | inl valid ↦ elim (Option-cases (m.parse conversation_id)) [
      | inl unparsed ↦ cc (m.valid_parses conversation_id valid, ap is_some unparsed)
      | inr (c, parsed_c) ↦ elim (Option-cases (m.parse user_id)) [
        | inl unparsed ↦ absurd (unfold is_conversation_member find_membership in ground arith)
        | inr (u, parsed_u) ↦ (
          c,
          u,
          valid,
          parsed_c,
          parsed_u,
          ground (
            arith,
            is_some-find (is_member_of c u) db.conversations,
            is_conversation_member_lem m conversation_id user_id db parsed_c parsed_u valid,
          ),
        )
      ]
    ]
  ]

  member_complete :
      IsMember m conversation_id user_id db
      → is_conversation_member m conversation_id user_id db ≡ ok true
  member_complete (c, u, valid, parsed_c, parsed_u, listed) =
      is_conversation_member_lem m conversation_id user_id db parsed_c parsed_u valid
      ∙ ap ok (is_some-find (is_member_of c u) db.conversations ∙ listed)

  -- The check answers `true` exactly for a valid conversation id and a user id such that some
  -- conversation has this id and this member.
  pub is_conversation_member-true_iff :
      (is_conversation_member m conversation_id user_id db ≡ ok true)
      ↔ IsMember m conversation_id user_id db
  is_conversation_member-true_iff = (IsMember-sound, member_complete)

abbrev pub is_ok {ℓ} : {A : Type ℓ} → Result A → Bool
is_ok (ok a) = true
is_ok (err e) = false

-- The check that throws and the check that answers a Boolean let the same callers through.
pub assert_membership-agrees :
    (m : Mongo) (conversation_id user_id : String) (db : Db)
    → (is_ok (assert_membership m conversation_id user_id db) ≡ true)
      ↔ (is_conversation_member m conversation_id user_id db ≡ ok true)
unfolding assert_membership is_conversation_member
assert_membership-agrees m conversation_id user_id db = ground (arith)

-- The check reads the conversations only.
pub is_conversation_member-messages :
    (m : Mongo) (conversation_id user_id : String) (db : Db) (msgs : List Message)
    → is_conversation_member m conversation_id user_id (record db { messages = msgs })
      ≡ is_conversation_member m conversation_id user_id db
unfolding is_conversation_member
is_conversation_member-messages m conversation_id user_id db msgs = refl
