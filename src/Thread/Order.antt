-- ===== src/Thread/Order.antt =====
-- The receipts that a client is told of (onDelivered and onRead of
-- frontend-ui/src/hooks/useMessages.ts): the order of their arrival does not matter.
use react_websocket_chat.Prelude.{
  String, ◌≡◌, refl, ap, sym, ◌∙◌, List, [], ◌∷◌, map, arith, Bool-cases, inl, inr, if◌then◌else◌,
}
use mathlib.Core.List.{Permᴰ}
use react_websocket_chat.Server.{SocketMessagePayload}
use react_websocket_chat.Thread.{Thread, deliver, mark_read, is_of_current, on_delivered, on_read}

pub data Receipt : Type 0 where
  delivered_receipt : (message_id conversation_id : String) → Receipt
  read_receipt : (conversation_id : String) → (message_ids : List String) → Receipt

-- What one receipt does to the thread, and a sequence of them.
unfoldable pub on_receipt : Receipt → Thread → Thread
on_receipt (delivered_receipt message_id conversation_id) = on_delivered message_id conversation_id
on_receipt (read_receipt conversation_id message_ids) = on_read conversation_id message_ids

unfoldable pub on_receipts : List Receipt → Thread → Thread
on_receipts [] t = t
on_receipts (r ∷ rs) t = on_receipts rs (on_receipt r t)

deliver-deliver :
    (a b : String) (msg : SocketMessagePayload)
    → deliver a (deliver b msg) ≡ deliver b (deliver a msg)
unfolding deliver
deliver-deliver a b msg = ground arith

deliver-mark_read :
    (a : String) (ids : List String) (msg : SocketMessagePayload)
    → deliver a (mark_read ids msg) ≡ mark_read ids (deliver a msg)
unfolding deliver mark_read
deliver-mark_read a ids msg = ground arith

mark_read-mark_read :
    (ids ids' : List String) (msg : SocketMessagePayload)
    → mark_read ids (mark_read ids' msg) ≡ mark_read ids' (mark_read ids msg)
unfolding mark_read
mark_read-mark_read ids ids' msg = ground arith

map_comm :
    (f g : SocketMessagePayload → SocketMessagePayload)
    → ((msg : SocketMessagePayload) → f (g msg) ≡ g (f msg))
    → (msgs : List SocketMessagePayload) → map f (map g msgs) ≡ map g (map f msgs)
map_comm f g h [] = refl
map_comm f g h (msg ∷ msgs) = cc (h msg, map_comm f g h msgs)

-- The change of one receipt, and the conversation that it is about.
abbrev change : Receipt → SocketMessagePayload → SocketMessagePayload
change (delivered_receipt message_id conversation_id) = deliver message_id
change (read_receipt conversation_id message_ids) = mark_read message_ids

abbrev conversation_of : Receipt → String
conversation_of (delivered_receipt message_id conversation_id) = conversation_id
conversation_of (read_receipt conversation_id message_ids) = conversation_id

abbrev changed : Receipt → Thread → Thread
changed r t =
    if is_of_current (conversation_of r) t.current
    then record t { messages = map (change r) t.messages }
    else t

on_receipt-changed : (r : Receipt) (t : Thread) → on_receipt r t ≡ changed r t
unfolding on_receipt on_delivered on_read
on_receipt-changed (delivered_receipt message_id conversation_id) t = refl
on_receipt-changed (read_receipt conversation_id message_ids) t = refl

change-change :
    (r s : Receipt) (msg : SocketMessagePayload) → change r (change s msg) ≡ change s (change r msg)
change-change (delivered_receipt a c) (delivered_receipt b d) msg = deliver-deliver a b msg
change-change (delivered_receipt a c) (read_receipt d ids) msg = deliver-mark_read a ids msg
change-change (read_receipt c ids) (delivered_receipt b d) msg = sym (deliver-mark_read b ids msg)
change-change (read_receipt c ids) (read_receipt d ids') msg = mark_read-mark_read ids ids' msg

changed-changed : (r s : Receipt) (t : Thread) → changed r (changed s t) ≡ changed s (changed r t)
changed-changed r s t = elim (Bool-cases (is_of_current (conversation_of r) t.current)) [
  | inl here ↦ elim (Bool-cases (is_of_current (conversation_of s) t.current)) [
    | inl here' ↦
        rw (here', here, here', map_comm (change r) (change s) (change-change r s) t.messages) refl
    | inr away ↦ rw (away, here, away) refl
  ]
  | inr away ↦ elim (Bool-cases (is_of_current (conversation_of s) t.current)) [
    | inl here ↦ rw (here, away, here) refl
    | inr away' ↦ rw (away', away, away') refl
  ]
]

on_receipt_comm :
    (r s : Receipt) (t : Thread) → on_receipt r (on_receipt s t) ≡ on_receipt s (on_receipt r t)
on_receipt_comm r s t =
    rw
      (
        on_receipt-changed s t,
        on_receipt-changed r t,
        on_receipt-changed r (changed s t),
        on_receipt-changed s (changed r t),
      )
      (changed-changed r s t)

-- The same receipts in any order leave the same thread.
pub on_receipts-perm :
    (rs rs' : List Receipt) (t : Thread) → Permᴰ rs rs' → on_receipts rs t ≡ on_receipts rs' t
unfolding on_receipts
on_receipts-perm [] [] t Permᴰ.nil = refl
on_receipts-perm (r ∷ rs) (s ∷ ss) t (Permᴰ.cons e p) =
    on_receipts-perm rs ss (on_receipt r t) p ∙ ap (λ x. on_receipts ss (on_receipt x t)) e
on_receipts-perm (r ∷ s ∷ rs) (s' ∷ r' ∷ rs') t (Permᴰ.swap e e') =
    ap (on_receipts rs) (on_receipt_comm s r t)
    ∙ ap (λ x. on_receipts rs (on_receipt x (on_receipt s t))) e
    ∙ ap (λ x. on_receipts rs (on_receipt r' (on_receipt x t))) e'
on_receipts-perm rs ss t (Permᴰ.trans {l₂ = qs} p q) =
    on_receipts-perm rs qs t p ∙ on_receipts-perm qs ss t q
