-- ===== src/Conversations/History/Ties.antt =====
-- Messages of one millisecond, and the cursors of a history (src/services/conversation.service.ts,
-- getMessageHistory).
use mathlib.Core.List.{append-nil}
use react_websocket_chat.Prelude.{
  ℕ, zero, suc, ◌≤◌, ◌<◌, String, ◌≡◌, refl, ◌∙◌, Bool, true, false, ◌&&◌, not, List, [], ◌∷◌, ◌++◌,
  none, some, arith, count, take, length, ltb, All, ◌==◌, take_of_length-le, length-take,
}
use react_websocket_chat.Exec.{ok}
use react_websocket_chat.Model.{ObjectId, Message, Db}
use react_websocket_chat.Mongo.{Mongo}
use react_websocket_chat.Conversations.{is_in_history, last_created_at}
use react_websocket_chat.Conversations.History.{
  created, last_of_nonempty, history, get_message_history_lem, count-history,
}
use react_websocket_chat.Conversations.History.Paging.{all_pages, count-every, is_of, every_of}

none_older :
    (cid t : ℕ) (msgs : List Message)
    → All (λ msg. msg.created_at ≡ t) msgs
    → count (is_in_history cid (some t)) msgs ≡ 0
unfolding is_in_history
none_older cid t [] h = refl
none_older cid t (x ∷ msgs) (hx, h) = ground (arith, none_older cid t msgs h)

cursor_of_ties :
    (t u n : ℕ) (msgs : List Message)
    → count (λ msg. not (created msg == t)) msgs ≡ 0
    → last_created_at (take n msgs) ≡ some u
    → u ≡ t
unfolding last_created_at
cursor_of_ties t u zero msgs h e = cc
cursor_of_ties t u (suc n) [] h e = cc
cursor_of_ties t u (suc zero) (x ∷ xs) h e = ground arith
cursor_of_ties t u (suc (suc n)) (x ∷ []) h e = ground arith
cursor_of_ties t u (suc (suc n)) (x ∷ y ∷ xs) h e =
    cursor_of_ties t u (suc n) (y ∷ xs) (ground arith) e

no_others :
    (cid t : ℕ) (msgs : List Message)
    → All (λ msg. msg.created_at ≡ t) msgs
    → count (λ msg. is_in_history cid none msg && not (created msg == t)) msgs ≡ 0
no_others cid t [] h = refl
no_others cid t (x ∷ msgs) (hx, h) = ground (arith, no_others cid t msgs h)

every_in_history :
    (cid t : ObjectId) (msgs : List Message)
    → count (λ msg. is_in_history cid (some t) msg && true) msgs
      ≡ count (is_in_history cid (some t)) msgs
every_in_history cid t [] = refl
every_in_history cid t (x ∷ msgs) = ground (arith, every_in_history cid t msgs)

nil_of_count-zero : (msgs : List Message) → count (λ _. true) msgs ≡ 0 → msgs ≡ []
nil_of_count-zero [] h = refl
nil_of_count-zero (x ∷ msgs) h = absurd (omega arith)

-- Ties are lost: if all messages were created in one millisecond and the conversation has more of
-- them than a page holds, a client that follows the cursors gets one page of them and then, for any
-- number of requests, no more.
pub all_pages-ties :
    (m : Mongo) (conversation_id : String) (cid limit t fuel : ℕ) (db : Db)
    → m.parse conversation_id ≡ some cid
    → 1 ≤ limit
    → All (λ msg. msg.created_at ≡ t) db.messages
    → limit < count (is_of cid) db.messages
    → (msgs : List Message) × (all_pages m conversation_id limit (suc (suc fuel)) none db ≡ ok msgs)
      × (length msgs ≡ limit)
unfolding all_pages
all_pages-ties m conversation_id cid limit t fuel db parsed room tied many =
    let every : Message → Bool = λ _. true in
    let h : List Message = history m cid none db in
    let size = count-history m conversation_id cid limit none db parsed every in
    let more : ltb limit (length h) ≡ true =
      ground (arith, size, count-every h, every_of cid db.messages) in
    let (u, cursor) = last_of_nonempty (take limit h) (ground (arith, length-take limit h)) in
    let others =
      count-history m conversation_id cid limit none db parsed (λ msg. not (created msg == t)) in
    let same : u ≡ t =
      cursor_of_ties t u limit h (omega (arith, others, no_others cid t db.messages tied)) cursor in
    let older = count-history m conversation_id cid limit (some t) db parsed every in
    let empty : history m cid (some t) db ≡ [] =
      nil_of_count-zero (history m cid (some t) db)
        (older ∙ every_in_history cid t db.messages ∙ none_older cid t db.messages tied) in
    let last : ltb limit 0 ≡ false = ground arith in
    (
      take limit h ++ take limit [],
      rw
          (
            get_message_history_lem m conversation_id cid limit none db parsed,
            more,
            cursor,
            same,
            get_message_history_lem m conversation_id cid limit (some t) db parsed,
            empty,
            last,
          )
          refl,
      rw (take_of_length-le {A = Message} limit [] (omega arith), append-nil (take limit h))
          (ground (arith, length-take limit h)),
    )
