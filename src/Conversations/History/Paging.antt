-- ===== src/Conversations/History/Paging.antt =====
-- Reading a whole history page by page, each request with the cursor of the page before
-- (src/services/conversation.service.ts, getMessageHistory, for infinite scroll).
use react_websocket_chat.Prelude.{
  ℕ, zero, suc, ◌+◌, ◌≤◌, ◌<◌, String, ◌≡◌, refl, ap, sym, ◌∙◌, Bool, true, ◌&&◌, List, [], ◌∷◌,
  ◌++◌, Option, none, some, arith, count, take, drop, length, ltb, All, Below, ◌==◌, Bool-cases,
  inl, inr, take_of_length-le, length-take, count-take-drop, count-append,
}
use react_websocket_chat.Exec.{Result, ok, and_then}
use react_websocket_chat.Model.{ObjectId, Message, Db}
use react_websocket_chat.Mongo.{Mongo}
use react_websocket_chat.Conversations.{is_in_history, last_created_at, get_message_history}
use react_websocket_chat.Conversations.History.{
  created, cut_at_last, last_of_nonempty, history, get_message_history_lem, count-history,
}

-- No two messages of the conversation were created in the same millisecond.
abbrev pub HasDistinctTimes : ObjectId → List Message → Type 0
HasDistinctTimes cid msgs =
    (t : ℕ) → count (λ msg. msg.conversation_id == cid && msg.created_at == t) msgs ≤ 1

-- A client that follows the cursors, for at most as many pages as the fuel says.
unfoldable pub all_pages : Mongo → String → ℕ → ℕ → Option ℕ → Db → Result (List Message)
all_pages m conversation_id limit zero before db = ok []
all_pages m conversation_id limit (suc fuel) before db =
    and_then (get_message_history m conversation_id limit before db) λ page. elim page.next_cursor [
      | none ↦ ok page.messages
      | some t ↦
          and_then (all_pages m conversation_id limit fuel (some t) db)
            (λ rest. ok (page.messages ++ rest))
    ]

abbrev pub AtMost : ℕ → Option ℕ → Type 0
AtMost t none = Unit
AtMost t (some before) = t ≤ before

pub none_at_or_after :
    (cid before t : ℕ) (msgs : List Message)
    → before ≤ t
    → count (λ msg. is_in_history cid (some before) msg && created msg == t) msgs ≡ 0
unfolding is_in_history
none_at_or_after cid before t [] h = refl
none_at_or_after cid before t (x ∷ msgs) h = ground (arith, none_at_or_after cid before t msgs h)

pub cursor_AtMost :
    (cid : ℕ) (before : Option ℕ) (t : ℕ) (msgs : List Message)
    → 1 ≤ count (λ msg. is_in_history cid before msg && created msg == t) msgs
    → AtMost t before
cursor_AtMost cid none t msgs h = tt
cursor_AtMost cid (some before) t msgs h = elim (Bool-cases (ltb t before)) [
  | inl below ↦ ground arith
  | inr above ↦ absurd (omega (arith, none_at_or_after cid before t msgs (ground arith)))
]

pub at_time-le-one :
    (cid : ℕ) (before : Option ℕ) (t : ℕ) (msgs : List Message)
    → count (λ msg. is_in_history cid before msg && created msg == t) msgs
      ≤ count (λ msg. msg.conversation_id == cid && msg.created_at == t) msgs
unfolding is_in_history
at_time-le-one cid before t [] = omega arith
at_time-le-one cid none t (x ∷ msgs) = ground (arith, at_time-le-one cid none t msgs)
at_time-le-one cid (some b) t (x ∷ msgs) = ground (arith, at_time-le-one cid (some b) t msgs)

-- The history before the cursor is the part of the history that is older than the cursor.
pub narrow :
    (cid : ℕ) (before : Option ℕ) (t : ℕ) (p : Message → Bool) (msgs : List Message)
    → AtMost t before
    → count (λ msg. is_in_history cid (some t) msg && p msg) msgs
      ≡ count (λ msg. is_in_history cid before msg && (ltb (created msg) t && p msg)) msgs
unfolding is_in_history
narrow cid before t p [] h = refl
narrow cid none t p (x ∷ msgs) h = ground (arith, narrow cid none t p msgs h)
narrow cid (some b) t p (x ∷ msgs) h = ground (arith, narrow cid (some b) t p msgs h)

pub count-older_zero :
    (t : ℕ) (p : Message → Bool) (msgs : List Message)
    → All (λ msg. t ≤ created msg) msgs
    → count (λ msg. ltb (created msg) t && p msg) msgs ≡ 0
count-older_zero t p [] h = refl
count-older_zero t p (x ∷ msgs) (hx, h) = ground (arith, count-older_zero t p msgs h)

pub count-older_all :
    (t : ℕ) (p : Message → Bool) (msgs : List Message)
    → Below created t msgs
    → count (λ msg. created msg == t) msgs ≡ 0
    → count (λ msg. ltb (created msg) t && p msg) msgs ≡ count p msgs
count-older_all t p [] h none_at = refl
count-older_all t p (x ∷ msgs) (hx, h) none_at = ground (arith, count-older_all t p msgs h)

pub count-every : (msgs : List Message) → count (λ _. true) msgs ≡ length msgs
count-every [] = refl
count-every (x ∷ msgs) = omega (arith, count-every msgs)

module _ (m : Mongo) (conversation_id : String) (cid limit : ℕ) (db : Db)
    (parsed : m.parse conversation_id ≡ some cid) (room : 1 ≤ limit)
    (distinct : HasDistinctTimes cid db.messages) where
  -- What a page shows and what is left before its cursor make up the history.
  pub page_and_rest :
      (before : Option ℕ) (t : ℕ) (p : Message → Bool)
      → last_created_at (take limit (history m cid before db)) ≡ some t
      → count p (take limit (history m cid before db)) + count p (history m cid (some t) db)
        ≡ count p (history m cid before db)
  page_and_rest before t p e =
      let h : List Message = history m cid before db in
      let (above, below, some_at) =
        cut_at_last limit t h (m.messages.sort_desc-Descending created _) e in
      let at_h =
        count-history m conversation_id cid limit before db parsed (λ msg. created msg == t) in
      let at_t : Message → Bool = λ msg. created msg == t in
      let older : Message → Bool = λ msg. ltb (created msg) t && p msg in
      let cut_at = count-take-drop at_t limit h in
      let one : count at_t h ≤ 1 =
        omega (arith, at_h, at_time-le-one cid before t db.messages, distinct t) in
      let within : AtMost t before =
        cursor_AtMost cid before t db.messages (omega (arith, at_h, cut_at)) in
      let rest : count p (history m cid (some t) db) ≡ count older h =
        count-history m conversation_id cid limit (some t) db parsed p
        ∙ narrow cid before t p db.messages within
        ∙ sym (count-history m conversation_id cid limit before db parsed older) in
      omega (
        arith,
        count-take-drop p limit h,
        count-take-drop older limit h,
        count-older_zero t p (take limit h) above,
        count-older_all t p (drop limit h) below (omega arith),
        rest,
      )

  pub all_pages_lem :
      (fuel : ℕ) (before : Option ℕ)
      → length (history m cid before db) < fuel
      → (msgs : List Message) × (all_pages m conversation_id limit fuel before db ≡ ok msgs)
        × ((p : Message → Bool) → count p msgs ≡ count p (history m cid before db))
  unfolding all_pages
  all_pages_lem zero before h = absurd (omega arith)
  all_pages_lem (suc fuel) before enough =
      elim (Bool-cases (ltb limit (length (history m cid before db)))) [
        | inr last ↦ (
          take limit (history m cid before db),
          rw (get_message_history_lem m conversation_id cid limit before db parsed, last) refl,
          λ p. rw (take_of_length-le limit (history m cid before db) (ground arith)) refl,
        )
        | inl more ↦
            let h : List Message = history m cid before db in
            let (t, cursor) =
              last_of_nonempty (take limit h) (ground (arith, length-take limit h)) in
            let every : Message → Bool = λ _. true in
            let (rest, paged, counted) = all_pages_lem fuel (some t) (
              ground (
                arith,
                length-take limit h,
                count-every (take limit h),
                count-every h,
                count-every (history m cid (some t) db),
                page_and_rest before t every cursor,
              )) in
            (
              take limit h ++ rest,
              rw
                  (
                    get_message_history_lem m conversation_id cid limit before db parsed,
                    more,
                    cursor,
                    paged,
                  )
                  refl,
              λ p.
                  count-append p (take limit h) rest
                  ∙ ap (λ (n : ℕ). count p (take limit h) + n) (counted p)
                  ∙ page_and_rest before t p cursor,
            )
      ]

abbrev pub is_of : ObjectId → Message → Bool
is_of cid msg = msg.conversation_id == cid

pub every_of :
    (cid : ObjectId) (msgs : List Message)
    → count (λ msg. is_in_history cid none msg && true) msgs ≡ count (is_of cid) msgs
unfolding is_in_history
every_of cid [] = refl
every_of cid (x ∷ msgs) = ground (arith, every_of cid msgs)

pub in_history_none :
    (cid : ObjectId) (p : Message → Bool) (msgs : List Message)
    → count (λ msg. is_in_history cid none msg && p msg) msgs
      ≡ count (λ msg. is_of cid msg && p msg) msgs
unfolding is_in_history
in_history_none cid p [] = refl
in_history_none cid p (x ∷ msgs) = ground (arith, in_history_none cid p msgs)

-- If no two messages of the conversation were created in the same millisecond, a client that
-- follows the cursors from the newest page on, with pages of any size from 1 on, gets every message
-- of the conversation as often as the database holds it, and no other message. One request more
-- than there are messages is enough.
pub all_pages_complete :
    (m : Mongo) (conversation_id : String) (cid limit : ℕ) (db : Db)
    → m.parse conversation_id ≡ some cid
    → 1 ≤ limit
    → HasDistinctTimes cid db.messages
    → (msgs : List Message) × (all_pages m conversation_id limit
          (suc (count (is_of cid) db.messages))
          none
          db
        ≡ ok msgs)
      × ((p : Message → Bool) → count p msgs ≡ count (λ msg. is_of cid msg && p msg) db.messages)
all_pages_complete m conversation_id cid limit db parsed room distinct =
    let every : Message → Bool = λ _. true in
    let h : List Message = history m cid none db in
    let size = count-history m conversation_id cid limit none db parsed every in
    let (msgs, paged, counted) =
      all_pages_lem m conversation_id cid limit db parsed room distinct
        (suc (count (is_of cid) db.messages)) none
        (omega (arith, count-every h, size, every_of cid db.messages)) in
    (
      msgs,
      paged,
      λ p.
          counted p
          ∙ count-history m conversation_id cid limit none db parsed p
          ∙ in_history_none cid p db.messages,
    )
