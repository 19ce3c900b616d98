-- ===== src/Conversations/History.antt =====
-- getMessageHistory of src/services/conversation.service.ts: what one page of a history holds.
pub mod Paging
pub mod Ties
use Prim.Native.Nat.{min}
use react_websocket_chat.Prelude.{
  ℕ, zero, suc, ◌+◌, ◌≤◌, ◌<◌, String, ◌≡◌, refl, ap, sym, ◌∙◌, Bool, true, false, ◌&&◌, List, [],
  ◌∷◌, Option, none, some, arith, filter, count, take, drop, length, ltb, All, Below, Descending,
  ◌==◌, if◌then◌else◌, Bool-cases, inl, inr, take-take-suc, take_of_length-le, length-take,
  count-take-drop, Descending-take, length-filter, count-filter,
}
use native.Mathlib.Numerals.{add-one}
use react_websocket_chat.Exec.{Result, ok}
use react_websocket_chat.Model.{ObjectId, Message, Db}
use react_websocket_chat.Mongo.{Mongo}
use react_websocket_chat.Conversations.{
  PaginatedMessages, is_in_history, last_created_at, get_message_history,
}

abbrev pub created : Message → ℕ
created msg = msg.created_at

-- Where a cut of a sorted list ends at time `t`, no earlier element is older and no later one newer.
pub cut_at_last :
    (n t : ℕ) (msgs : List Message)
    → Descending created msgs
    → last_created_at (take n msgs) ≡ some t
    → All (λ msg. t ≤ created msg) (take n msgs)
      × Below created t (drop n msgs)
      × (1 ≤ count (λ msg. created msg == t) (take n msgs))
unfolding last_created_at
cut_at_last zero t msgs d e = cc
cut_at_last (suc n) t [] d e = cc
cut_at_last (suc zero) t (x ∷ xs) (bx, d) e =
    let same : created x ≡ t = ground arith in
    (rw same (omega arith, tt), rw same at bx, ground arith)
cut_at_last (suc (suc n)) t (x ∷ []) (bx, d) e =
    let same : created x ≡ t = ground arith in (rw same (omega arith, tt), tt, ground arith)
cut_at_last (suc (suc n)) t (x ∷ y ∷ xs) (bx, d) e =
    let (above, below, some_at) = cut_at_last (suc n) t (y ∷ xs) d e in
    ((omega arith, above), below, ground arith)

last_of_nonempty :
    (msgs : List Message) → 0 < length msgs → (t : ℕ) × (last_created_at msgs ≡ some t)
unfolding last_created_at
last_of_nonempty [] h = absurd (omega arith)
last_of_nonempty (x ∷ []) h = (x.created_at, refl)
last_of_nonempty (x ∷ y ∷ xs) h = last_of_nonempty (y ∷ xs) (omega arith)

-- The history before a time, the newest message first.
abbrev pub history : Mongo → ObjectId → Option ℕ → Db → List Message
history m cid before db =
    m.messages.sort_desc (λ msg. msg.created_at)
      (m.messages.find_many (is_in_history cid before) db.messages)

abbrev pub page_of : ℕ → List Message → PaginatedMessages
page_of limit msgs = record {
  messages = take limit msgs;
  has_more = ltb limit (length msgs);
  next_cursor = if ltb limit (length msgs) then last_created_at (take limit msgs) else none;
}

has_more_lem :
    (limit : ℕ) (msgs : List Message)
    → ltb limit (length (take (suc limit) msgs)) ≡ ltb limit (length msgs)
has_more_lem limit msgs = ground (arith, length-take (suc limit) msgs)

module _ (m : Mongo) (conversation_id : String) (cid limit : ℕ) (before : Option ℕ) (db : Db)
    (parsed : m.parse conversation_id ≡ some cid) where
  pub get_message_history_lem :
      get_message_history m conversation_id limit before db
      ≡ ok (page_of limit (history m cid before db))
  unfolding get_message_history
  get_message_history_lem = elim (Bool-cases (ltb limit (length (history m cid before db)))) [
    | inl more ↦
        rw
          (
            parsed,
            add-one,
            has_more_lem limit (history m cid before db),
            more,
            take-take-suc limit (history m cid before db),
          )
          refl
    | inr last ↦
        rw
          (
            parsed,
            add-one,
            has_more_lem limit (history m cid before db),
            last,
            take_of_length-le (suc limit) (history m cid before db) (ground arith),
            take_of_length-le limit (history m cid before db) (ground arith),
          )
          refl
  ]

  count-history :
      (p : Message → Bool)
      → count p (history m cid before db)
        ≡ count (λ msg. is_in_history cid before msg && p msg) db.messages
  count-history p =
      m.messages.count-sort_desc (λ msg. msg.created_at) p
        (m.messages.find_many (is_in_history cid before) db.messages)
      ∙ rw (m.messages.find_many_lem (is_in_history cid before) db.messages)
          (count-filter p (is_in_history cid before) db.messages)
