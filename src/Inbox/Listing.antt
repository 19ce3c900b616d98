-- ===== src/Inbox/Listing.antt =====
-- The order and the entries of the client's list (frontend-ui/src/hooks/useConversations.ts).
use react_websocket_chat.Prelude.{
  ◌+◌, ◌≤◌, String, ◌≡◌, refl, Bool, false, not, List, [], ◌∷◌, some, arith, count, find, find-true,
  filter, any, Bool-cases, Option-cases, inl, inr, str_eq, str_eq_iff, if◌then◌else◌, All,
}
use react_websocket_chat.Server.{SocketMessagePayload, PresenceEvent}
use react_websocket_chat.Inbox.{Entry, remove_first, bump, update_presence, add_started}

abbrev pub has_id : String → Entry → Bool
has_id id entry = str_eq entry.id id

abbrev pub is_other : String → Entry → Bool
is_other id entry = not (str_eq entry.id id)

-- No conversation is listed twice.
abbrev pub HasUniqueIds : List Entry → Type 0
HasUniqueIds entries = (id : String) → count (has_id id) entries ≤ 1

pub data Update : Type 0 where
  arrived : SocketMessagePayload → Update
  presence : PresenceEvent → Update
  started : Entry → Update
  refreshed : List Entry → Update

unfoldable pub update : Update → List Entry → List Entry
update (arrived msg) entries = bump msg entries
update (presence event) entries = update_presence event entries
update (started entry) entries = add_started entry entries
update (refreshed listed) entries = listed

unfoldable pub update_all : List Update → List Entry → List Entry
update_all [] entries = entries
update_all (u ∷ us) entries = update_all us (update u entries)

filter-remove_first :
    (id : String) (entries : List Entry)
    → filter (is_other id) (remove_first id entries) ≡ filter (is_other id) entries
unfolding remove_first
filter-remove_first id [] = refl
filter-remove_first id (entry ∷ entries) = ground (arith, filter-remove_first id entries)

count-remove_first :
    (id other : String) (entry : Entry) (entries : List Entry)
    → find (has_id id) entries ≡ some entry
    → (if str_eq id other then 1 else 0) + count (has_id other) (remove_first id entries)
      ≡ count (has_id other) entries
unfolding remove_first
count-remove_first id other entry [] h = absurd (ground arith)
count-remove_first id other entry (x ∷ entries) h = elim (Bool-cases (str_eq x.id id)) [
  | inl hit ↦ ground (arith, str_eq_iff x.id id)
  | inr miss ↦ ground (arith, count-remove_first id other entry entries)
]

count-bump :
    (other : String) (msg : SocketMessagePayload) (entries : List Entry)
    → count (has_id other) (bump msg entries) ≡ count (has_id other) entries
unfolding bump
count-bump other msg entries = elim (Option-cases (find (has_id msg.conversation_id) entries)) [
  | inl absent ↦ rw absent refl
  | inr (entry, found) ↦
      let same = find-true (has_id msg.conversation_id) entries entry found in
      ground (
        arith,
        same,
        str_eq_iff entry.id msg.conversation_id,
        count-remove_first msg.conversation_id other entry entries found,
      )
]

count-update_presence :
    (other : String) (event : PresenceEvent) (entries : List Entry)
    → count (has_id other) (update_presence event entries) ≡ count (has_id other) entries
unfolding update_presence
count-update_presence other event [] = refl
count-update_presence other event (entry ∷ entries) =
    ground (arith, count-update_presence other event entries)

none_of_not-any :
    (id : String) (entries : List Entry)
    → any (λ other. str_eq other.id id) entries ≡ false
    → count (has_id id) entries ≡ 0
none_of_not-any id [] h = refl
none_of_not-any id (entry ∷ entries) h = ground (arith, none_of_not-any id entries)

count-add_started :
    (other : String) (entry : Entry) (entries : List Entry)
    → count (has_id other) entries ≤ 1
    → count (has_id other) (add_started entry entries) ≤ 1
unfolding add_started
count-add_started other entry entries h =
    ground (arith, none_of_not-any entry.id entries, str_eq_iff entry.id other)

abbrev pub IsUnique : Update → Type 0
IsUnique (refreshed listed) = HasUniqueIds listed
IsUnique _ = Unit

HasUniqueIds-update :
    (u : Update) (entries : List Entry)
    → IsUnique u
    → HasUniqueIds entries
    → HasUniqueIds (update u entries)
unfolding update
HasUniqueIds-update (arrived msg) entries a h id = omega (arith, count-bump id msg entries, h id)
HasUniqueIds-update (presence event) entries a h id =
    omega (arith, count-update_presence id event entries, h id)
HasUniqueIds-update (started entry) entries a h id = count-add_started id entry entries (h id)
HasUniqueIds-update (refreshed listed) entries a h id = a id

-- Over any sequence of new messages, presence changes, started conversations and refreshes, no
-- conversation comes to be listed twice, if none was at first. The lists that the server sends hold
-- none twice.
pub update_all-HasUniqueIds :
    (us : List Update) (entries : List Entry)
    → All IsUnique us
    → HasUniqueIds entries
    → HasUniqueIds (update_all us entries)
unfolding update_all
update_all-HasUniqueIds [] entries a h = h
update_all-HasUniqueIds (u ∷ us) entries a h =
    update_all-HasUniqueIds us (update u entries) a.1 (HasUniqueIds-update u entries a.0 h)

-- A new message of a listed conversation puts this conversation first, with the message as its last
-- one, and leaves the other conversations as they were, in their order.
pub bump-moves_to_front :
    (msg : SocketMessagePayload) (entries : List Entry) (entry : Entry)
    → find (λ e. str_eq e.id msg.conversation_id) entries ≡ some entry
    → (rest : List Entry) × (bump msg entries ≡ record entry { last_message = some msg } ∷ rest)
      × (filter (is_other msg.conversation_id) rest ≡ filter (is_other msg.conversation_id) entries)
unfolding bump
bump-moves_to_front msg entries entry found = (
  remove_first msg.conversation_id entries,
  rw found refl,
  filter-remove_first msg.conversation_id entries,
)
