-- ===== src/Views/Titles.antt =====
-- The head of the chat and the sidebar show the same of a conversation
-- (frontend-ui/src/pages/ChatPage.tsx, frontend-ui/src/components/ConversationList.tsx).

use react_websocket_chat.Prelude.{
  ◌≤◌, ◌≡◌, refl, ap, String, Bool, true, false, ◌&&◌, ◌↔◌, List, [], ◌∷◌, Option, none, some,
  arith, any, find, count, Bool-cases, inl, inr,
}
use react_websocket_chat.Sanitize.{Text}
use react_websocket_chat.Model.{ConversationType, one_to_one, group, is_one_to_one}
use react_websocket_chat.Http.{PublicUser}
use react_websocket_chat.Inbox.{Entry, EntryMember, populated, unpopulated}
use react_websocket_chat.Views.{
  username_of, is_online_member, is_other_member, label_of, name_of, text_or, unknown_user,
  title_of, titled, get_conversation_label, is_other_member_online, title, presence_of,
  is_online_now, subtitle_of, subtitle,
}

named : (o : Option EntryMember) → name_of o ≡ text_or unknown_user (username_of o)
named none = refl
named (some (populated other)) = refl
named (some (unpopulated id)) = refl

titled_lem :
    (type : ConversationType) (name : Option Text) (members : List EntryMember) (user : PublicUser)
    → title_of type name members user ≡ titled (label_of type name members user.id)
titled_lem group name members user = refl
titled_lem one_to_one name members user = ap titled (named (find (is_other_member user.id) members))

presence_of-some :
    (other : EntryMember)
    → (presence_of (some other) ≡ is_online_now) ↔ (is_online_member other ≡ true)
presence_of-some other = elim (Bool-cases (is_online_member other)) [
  | inl on ↦ rw on (λ h. refl, λ h. refl)
  | inr off ↦ rw off (λ h. cc, λ h. cc)
]

any_of_count-zero :
    {A : Type 0} (p q : A → Bool) (xs : List A) → count p xs ≡ 0 → any (λ x. p x && q x) xs ≡ false
any_of_count-zero p q [] h = refl
any_of_count-zero p q (x ∷ xs) h = ground (arith, any_of_count-zero p q xs)

-- With one other member, the first other member's status is the dot.
presence-agrees :
    (user_id : String) (members : List EntryMember)
    → count (is_other_member user_id) members ≤ 1
    → (presence_of (find (is_other_member user_id) members) ≡ is_online_now)
      ↔ (any (λ member. is_other_member user_id member && is_online_member member) members ≡ true)
presence-agrees user_id [] h = (λ e. cc, λ e. cc)
presence-agrees user_id (member ∷ members) h = elim (Bool-cases (is_other_member user_id member)) [
  | inl other ↦
      let none_left : count (is_other_member user_id) members ≡ 0 = ground (arith, h, other) in
      let quiet =
        any_of_count-zero (is_other_member user_id) (is_online_member) members none_left in
      let (to, from) = presence_of-some member in
      rw (other, quiet) (λ e. rw (to e) refl, λ e. from (ground (arith, e)))
  | inr same ↦ rw same (presence-agrees user_id members (ground (arith, h, same)))
]

online-agrees :
    (type : ConversationType) (members : List EntryMember) (user : PublicUser)
    → count (is_other_member user.id) members ≤ 1
    → (subtitle_of type members user ≡ is_online_now) ↔ (
        (is_one_to_one type
          && any (λ member. is_other_member user.id member && is_online_member member) members)
        ≡ true)
online-agrees group members user few = (λ e. cc, λ e. cc)
online-agrees one_to_one members user few = presence-agrees user.id members few

-- A conversation's title in the head of the chat is its label in the list. If it has at most one
-- other member, the head says "Online" exactly when it is a 1:1 conversation and the dot of the list
-- is on.
pub title-agrees :
    (c : Entry) (user : PublicUser)
    → count (is_other_member user.id) c.members ≤ 1
    → (title (some c) (some user) ≡ titled (get_conversation_label c user.id))
      × ((subtitle (some c) (some user) ≡ is_online_now)
          ↔ ((is_one_to_one c.type && is_other_member_online c user.id) ≡ true))
unfolding title subtitle get_conversation_label is_other_member_online
title-agrees c user few =
    (titled_lem c.type c.name c.members user, online-agrees c.type c.members user few)
