-- ===== src/Http/Access.antt =====
-- Who gets what over HTTP (src/controllers/conversation.controller.ts).
use mathlib.Core.Path.{subst}
use react_websocket_chat.Prelude.{
  ℕ, String, ◌≡◌, refl, ap, sym, ◌∙◌, ◌≢◌, true, Option, none, some, inl, inr,
}
use react_websocket_chat.Exec.{
  Thrown, app_error, zod_error, cast_error, validation_error, duplicate_key, bad_query, Result,
  Result-cases, ok, err, Exec, query, ◌>>=◌,
}
use react_websocket_chat.Model.{Conversation, Db}
use react_websocket_chat.Mongo.{Mongo}
use react_websocket_chat.Conversations.{
  assert_membership, get_message_history, is_conversation_member, PaginatedMessages,
}
use react_websocket_chat.Conversations.Membership.{is_ok, assert_membership-agrees}
use react_websocket_chat.Server.{JwtPayload}
use react_websocket_chat.Http.{
  Body, Response, respond, history, error_handler, get_message_history_handler,
}

not_history : (e : Thrown) (p : PaginatedMessages) → (error_handler e).body ≢ history p
unfolding error_handler
not_history (app_error e) p h = cc
not_history (zod_error issues) p h = cc
not_history cast_error p h = cc
not_history validation_error p h = cc
not_history duplicate_key p h = cc
not_history bad_query p h = cc

history-injective : (p q : PaginatedMessages) → history p ≡ history q → p ≡ q
history-injective p q h = ap page_of h
  where
    page_of : Body → PaginatedMessages
    page_of (history r) = r
    page_of _ = p

abbrev page_after : Result Conversation → (Db → Result PaginatedMessages) → Exec Db Response
page_after access read = query (λ _. access) >>= λ _.
    query read >>= λ page db. (ok (record { status = 200; body = history page }), db)

abbrev page_then : Result PaginatedMessages → Exec Db Response
page_then r = query (λ _. r) >>= λ page db. (ok (record { status = 200; body = history page }), db)

page_after_lem :
    (access : Result Conversation) (read : Db → Result PaginatedMessages) (db : Db)
    (result : PaginatedMessages)
    → (respond (page_after access read db).0).body ≡ history result
    → (is_ok access ≡ true) × (read db ≡ ok result) × ((page_after access read db).1 ≡ db)
page_after_lem (err e) read db result h = absurd (not_history e result h)
page_after_lem (ok c) read db result h = elim (Result-cases (read db)) [
  | inl (e, failed) ↦ absurd (
      not_history e result
        (subst (λ r. (respond (page_then r db).0).body ≡ history result) failed h))
  | inr (page, done) ↦ (
    refl,
    done
        ∙ ap ok (
            history-injective page result
              (subst (λ r. (respond (page_then r db).0).body ≡ history result) done h)),
    subst (λ r. (page_then r db).1 ≡ db) (sym done) refl,
  )
]

-- A page of a conversation's messages is sent only to an authenticated member of the conversation,
-- and it is the page that the service reads. The request changes nothing.
pub get_message_history_handler-member :
    (m : Mongo) (user : Option JwtPayload) (id : String) (limit : ℕ) (before : Option ℕ) (db : Db)
    (result : PaginatedMessages)
    → (get_message_history_handler m user id limit before db).0.body ≡ history result
    → (caller : JwtPayload) × (user ≡ some caller)
      × (is_conversation_member m id caller.user_id db ≡ ok true)
      × (get_message_history m id limit before db ≡ ok result)
      × ((get_message_history_handler m user id limit before db).1 ≡ db)
unfolding get_message_history_handler
get_message_history_handler-member m none id limit before db result h = absurd (
    not_history (app_error (record { message = "Authentication required"; status_code = 401 }))
      result h)
get_message_history_handler-member m (some caller) id limit before db result h =
    let access : Result Conversation = assert_membership m id caller.user_id db in
    let (allowed, page, same) =
      page_after_lem access (get_message_history m id limit before) db result h in
    (caller, refl, (assert_membership-agrees m id caller.user_id db).0 allowed, page, same)
