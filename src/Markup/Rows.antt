-- ===== src/Markup/Rows.antt =====
-- ChatWindow (frontend-ui/src/components/ChatWindow.tsx) shows every message once.

use react_websocket_chat.Prelude.{
  ℕ, String, ◌≡◌, refl, ap, ◌∙◌, Bool, true, false, List, [], ◌∷◌, ◌++◌, map, none, some, is_some,
  filter, arith, All, str_eq, Bool-cases, Option-cases, inl, inr, if◌then◌else◌,
}
use react_websocket_chat.Sanitize.{Text}
use react_websocket_chat.Model.{Sender, is_read}
use react_websocket_chat.Mongo.{Mongo}
use react_websocket_chat.Server.{SocketMessagePayload}
use react_websocket_chat.Views.{status_label, is_other_sender}
use react_websocket_chat.Markup.{
  Node, Nodes, Element, Attributes, nodes, text, literal, has_class, elements, elements_in,
  contents,
}
use react_websocket_chat.Markup.Window.{
  WindowProps, is_own, message_row, message_rows, window_of_rows, chat_window,
}
use react_websocket_chat.Markup.Frame.{frame_classes, elements_of_window}

abbrev pub gathered : {A B : Type 0} → (A → List B) → List A → List B
gathered f [] = []
gathered f (x ∷ xs) = f x ++ gathered f xs

pub gathered-map : {A B : Type 0} (f : A → B) (xs : List A) → gathered (λ x. f x ∷ []) xs ≡ map f xs
gathered-map f [] = refl
gathered-map f (x ∷ xs) = ap (λ rest. f x ∷ rest) (gathered-map f xs)

pub gathered-filter :
    {A B : Type 0} (p : A → Bool) (f : A → B) (xs : List A)
    → gathered (λ x. if p x then f x ∷ [] else []) xs ≡ map f (filter p xs)
gathered-filter p f [] = refl
gathered-filter p f (x ∷ xs) = elim (Bool-cases (p x)) [
  | inl takes ↦ rw (takes, gathered-filter p f xs) refl
  | inr skips ↦ rw (skips, gathered-filter p f xs) refl
]

map-append :
    (xs ys : List Element)
    → map (λ (e : Element). e.1) (xs ++ ys)
      ≡ map (λ (e : Element). e.1) xs ++ map (λ (e : Element). e.1) ys
map-append [] ys = refl
map-append (x ∷ xs) ys = ap (λ rest. x.1 ∷ rest) (map-append xs ys)

-- The sender's part in a message, if there is a sender.
abbrev pub is_mine : Mongo → (current_user_id : String) → SocketMessagePayload → Bool
is_mine m current_user_id msg = elim msg.sender [
  | none ↦ false
  | some u ↦ is_own m current_user_id u
]

abbrev pub sender_name : SocketMessagePayload → Text
sender_name msg = elim msg.sender [ none ↦ [] | some u ↦ u.username ]

abbrev pub text_nodes : SocketMessagePayload → Nodes
text_nodes msg = nodes (text msg.text ∷ [])

abbrev pub status_nodes : SocketMessagePayload → Nodes
status_nodes msg = nodes (literal " " ∷ literal (status_label msg.status) ∷ [])

abbrev pub sender_nodes : SocketMessagePayload → Nodes
sender_nodes msg = nodes (text (sender_name msg) ∷ [])

module _ (m : Mongo) (time_text : ℕ → Text) (current_user_id : String) where
  abbrev row_of : SocketMessagePayload → Sender → Node
  row_of = message_row m time_text current_user_id

  row-text :
      (msg : SocketMessagePayload) (u : Sender)
      → contents "message-text" (row_of msg u) ≡ text_nodes msg ∷ []
  unfolding message_row elements
  row-text msg u = elim (Bool-cases (is_own m current_user_id u)) [
    | inl own ↦ elim (Bool-cases (is_read msg.status)) [
      | inl seen ↦ rw (own, seen) refl
      | inr unseen ↦ rw (own, unseen) refl
    ]
    | inr other ↦ rw other refl
  ]

  row-status :
      (msg : SocketMessagePayload) (u : Sender)
      → msg.sender ≡ some u
      → contents "message-status" (row_of msg u)
        ≡ (if is_mine m current_user_id msg then status_nodes msg ∷ [] else [])
  unfolding message_row elements
  row-status msg u h = elim (Bool-cases (is_own m current_user_id u)) [
    | inl own ↦ rw (h, own) refl
    | inr other ↦ rw (h, other) refl
  ]

  row-sender :
      (msg : SocketMessagePayload) (u : Sender)
      → msg.sender ≡ some u
      → contents "message-sender" (row_of msg u)
        ≡ (if is_other_sender m current_user_id msg then sender_nodes msg ∷ [] else [])
  unfolding message_row elements
  row-sender msg u h = elim (Bool-cases (is_own m current_user_id u)) [
    | inl own ↦ elim (Bool-cases (is_read msg.status)) [
      | inl seen ↦ rw (h, own, seen) refl
      | inr unseen ↦ rw (h, own, unseen) refl
    ]
    | inr other ↦ rw (h, other) refl
  ]

  -- What the rows have of a class, by what each has of it.
  rows-gathered :
      (name : String) (each : SocketMessagePayload → List Nodes)
      → ((msg : SocketMessagePayload) (u : Sender)
          → msg.sender ≡ some u
          → contents name (row_of msg u) ≡ each msg)
      → (messages : List SocketMessagePayload) (rows : List Node)
      → message_rows m time_text current_user_id messages ≡ some rows
      → map (λ (e : Element). e.1) (elements_in (λ tag. has_class name) (nodes rows))
        ≡ gathered each messages
  unfolding message_rows elements
  rows-gathered name each one [] rows h =
      let same : [] ≡ rows = ground (arith, h) in rw (← same) refl
  rows-gathered name each one (msg ∷ messages) rows h = elim (Option-cases msg.sender) [
    | inl gone ↦ absurd (ground (arith, h, gone))
    | inr (u, known) ↦ elim (Option-cases (message_rows m time_text current_user_id messages)) [
      | inl gone ↦ absurd (ground (arith, h, known, gone))
      | inr (rest, rendered) ↦
          let same : row_of msg u ∷ rest ≡ rows = ground (arith, h, known, rendered) in
          let p : String → Attributes → Bool = λ tag. has_class name in
          rw (← same) (
            map-append (elements p (row_of msg u)) (elements_in p (nodes rest))
            ∙ rw (one msg u known, rows-gathered name each one messages rest rendered) refl)
    ]
  ]

  module _ (props : WindowProps) (view : Node) where
    window-gathered :
        (name : String) (each : SocketMessagePayload → List Nodes)
        → All (λ c. str_eq c name ≡ false) frame_classes
        → ((msg : SocketMessagePayload) (u : Sender)
            → msg.sender ≡ some u
            → contents name (row_of msg u) ≡ each msg)
        → props.current_user_id ≡ current_user_id
        → chat_window m time_text props ≡ some view
        → contents name view ≡ gathered each props.messages
    unfolding chat_window
    window-gathered name each free one user h =
        elim (Option-cases (message_rows m time_text props.current_user_id props.messages)) [
          | inl gone ↦ absurd (ground (arith, h, gone))
          | inr (rows, rendered) ↦
              let same : window_of_rows props rows ≡ view = ground (arith, h, rendered) in
              rw (← same) (
                ap (map (λ (e : Element). e.1)) (elements_of_window name props rows free)
                ∙ rows-gathered name each one props.messages rows (rw user at rendered))
        ]

message_rows_render :
    (m : Mongo) (time_text : ℕ → Text) (uid : String) (messages : List SocketMessagePayload)
    → All (λ msg. is_some msg.sender ≡ true) messages
    → (rows : List Node) × (message_rows m time_text uid messages ≡ some rows)
unfolding message_rows
message_rows_render m time_text uid [] known = ([], refl)
message_rows_render m time_text uid (msg ∷ messages) (hm, known) =
    let (rows, rendered) = message_rows_render m time_text uid messages known in
    elim (Option-cases msg.sender) [
      | inl gone ↦ absurd (ground (arith, hm, gone))
      | inr (u, sent) ↦ (message_row m time_text uid msg u ∷ rows, rw (sent, rendered) refl)
    ]

chat_window_renders :
    (m : Mongo) (time_text : ℕ → Text) (props : WindowProps)
    → All (λ msg. is_some msg.sender ≡ true) props.messages
    → (view : Node) × (chat_window m time_text props ≡ some view)
unfolding chat_window
chat_window_renders m time_text props known =
    let (rows, rendered) =
      message_rows_render m time_text props.current_user_id props.messages known in
    (window_of_rows props rows, rw rendered refl)

-- If the sender of every message is known, ChatWindow renders, and shows each message's text once, in
-- the order of the messages. Each message of the user has its status, and no other has one; each
-- message of somebody else has its sender's name, and no own message has one.
pub chat_window-shows :
    (m : Mongo) (time_text : ℕ → Text) (props : WindowProps)
    → All (λ msg. is_some msg.sender ≡ true) props.messages
    → (view : Node) × (chat_window m time_text props ≡ some view)
      × (contents "message-text" view ≡ map text_nodes props.messages)
      × (contents "message-status" view
          ≡ map status_nodes (filter (is_mine m props.current_user_id) props.messages))
      × (contents "message-sender" view
          ≡ map sender_nodes (filter (is_other_sender m props.current_user_id) props.messages))
chat_window-shows m time_text props known =
    let uid : String = props.current_user_id in
    let (view, h) = chat_window_renders m time_text props known in
    (
      view,
      h,
      window-gathered m time_text uid props view "message-text" (λ msg. text_nodes msg ∷ [])
            (refl, (refl, (refl, (refl, (refl, tt)))))
            (λ msg u known. row-text m time_text uid msg u) refl h
          ∙ gathered-map text_nodes props.messages,
      window-gathered m time_text uid props view "message-status"
            (λ msg. if is_mine m uid msg then status_nodes msg ∷ [] else [])
            (refl, (refl, (refl, (refl, (refl, tt))))) (row-status m time_text uid) refl h
          ∙ gathered-filter (is_mine m uid) status_nodes props.messages,
      window-gathered m time_text uid props view "message-sender"
            (λ msg. if is_other_sender m uid msg then sender_nodes msg ∷ [] else [])
            (refl, (refl, (refl, (refl, (refl, tt))))) (row-sender m time_text uid) refl h
          ∙ gathered-filter (is_other_sender m uid) sender_nodes props.messages,
    )
