-- ===== src/Messages/Marked.antt =====
-- What the updateMany of markMessagesRead (src/services/message.service.ts) leaves.

use mathlib.Core.Path.{subst}
use react_websocket_chat.Prelude.{
  ℕ, ◌≡◌, refl, Bool, true, List, [], ◌∷◌, map, arith, filter, count, All, if◌then◌else◌, ==_refl,
  Bool-cases, inl, inr,
}
use react_websocket_chat.Model.{ObjectId, Message, read, includes}
use react_websocket_chat.Messages.{is_unread_up_to, message_id_of}

-- The change of the updateMany.
abbrev pub marked : ℕ → List ObjectId → Message → Message
marked now ids msg =
    if includes msg.id ids then record msg { status = read; updated_at = now } else msg

-- The ids of the messages that the first query finds.
abbrev pub unread_ids : ObjectId → ObjectId → ℕ → List Message → List ObjectId
unread_ids cid uid up_to msgs = map message_id_of (filter (is_unread_up_to cid uid up_to) msgs)

pub map-marked_nil : (now : ℕ) (msgs : List Message) → map (marked now []) msgs ≡ msgs
map-marked_nil now [] = refl
map-marked_nil now (x ∷ msgs) = rw (map-marked_nil now msgs)

includes_weaken :
    (p : Message → Bool) (id : ObjectId) (ids : List ObjectId) (msgs : List Message)
    → All (λ msg. p msg ≡ true → includes msg.id ids ≡ true) msgs
    → All (λ msg. p msg ≡ true → includes msg.id (id ∷ ids) ≡ true) msgs
includes_weaken p id ids [] h = tt
includes_weaken p id ids (x ∷ msgs) (hx, h) =
    (λ e. ground (arith, hx e), includes_weaken p id ids msgs h)

abbrev Included : (Message → Bool) → List Message → List Message → Type 0
Included p msgs found =
    All (λ msg. p msg ≡ true → includes msg.id (map message_id_of found) ≡ true) msgs

filtered-Included : (p : Message → Bool) (msgs : List Message) → Included p msgs (filter p msgs)
filtered-Included p [] = tt
filtered-Included p (x ∷ msgs) = elim (Bool-cases (p x)) [
  | inl hit ↦
      let e : x ∷ filter p msgs ≡ filter p (x ∷ msgs) = rw hit in
      subst (Included p (x ∷ msgs)) e (
        (λ _. rw ==_refl refl),
        includes_weaken p x.id (map message_id_of (filter p msgs)) msgs (filtered-Included p msgs),
      )
  | inr miss ↦
      let e : filter p msgs ≡ filter p (x ∷ msgs) = rw miss in
      subst (Included p (x ∷ msgs)) e ((λ h. absurd (cc)), filtered-Included p msgs)
]

-- After the update nothing is left that the query would find.
none_left_of :
    (now cid uid up_to : ℕ) (ids : List ObjectId) (msgs : List Message)
    → All (λ msg. is_unread_up_to cid uid up_to msg ≡ true → includes msg.id ids ≡ true) msgs
    → count (is_unread_up_to cid uid up_to) (map (marked now ids) msgs) ≡ 0
unfolding is_unread_up_to
none_left_of now cid uid up_to ids [] h = refl
none_left_of now cid uid up_to ids (x ∷ msgs) (hx, h) =
    ground (arith, none_left_of now cid uid up_to ids msgs h)

pub none_left :
    (now cid uid up_to : ℕ) (msgs : List Message)
    → count (is_unread_up_to cid uid up_to) (map (marked now (unread_ids cid uid up_to msgs)) msgs)
      ≡ 0
none_left now cid uid up_to msgs =
    none_left_of now cid uid up_to (unread_ids cid uid up_to msgs) msgs
      (filtered-Included (is_unread_up_to cid uid up_to) msgs)
