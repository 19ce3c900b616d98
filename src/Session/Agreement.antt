-- ===== src/Session/Agreement.antt =====
-- The session's state, localStorage and the socket agree
-- (frontend-ui/src/context/AuthContext.tsx, frontend-ui/src/lib/socket.ts).
use react_websocket_chat.Prelude.{
  ◌≡◌, ◌≢◌, refl, Bool, true, false, Option, none, some, arith, Bool-cases, inl, inr,
}
use react_websocket_chat.Sanitize.{Text}
use react_websocket_chat.Http.{PublicUser}
use react_websocket_chat.Session.{
  Session, Answer, received, failed, has_token, connect_socket, disconnect_socket, mount,
  settle_restored, on_restored, unmount, start_request, persist_session, on_authenticated, logout,
  app_shell, auth_page, chat_page, loading_screen,
}

-- What can happen to a session. AuthPage sends a login or a signup and shows until it is answered,
-- and the button of logout is on ChatPage.
pub data Step : Session → Session → Type 0 where
  restored : (s : Session) (answer : Answer PublicUser) → Step s (on_restored answer s)
  unmounted : (s : Session) → Step s (unmount s)
  submitted : (s : Session) → app_shell s ≡ auth_page → Step s (start_request s)
  authenticated :
      (s : Session) (answer : Answer (PublicUser × Text))
      → app_shell s ≡ auth_page
      → Step s (on_authenticated answer s)
  logged_out : (s : Session) → app_shell s ≡ chat_page → Step s (logout s)

-- The sessions that a client can reach. The tabs of a browser share localStorage, and nothing listens
-- to what another tab writes there; `alone` says that no other tab wrote.
pub data Reach : (alone : Bool) → Session → Type 0 where
  mounted : (stored : Option Text) → Reach true (mount stored)
  later : {alone : Bool} {s t : Session} → Reach alone s → Step s t → Reach alone t
  written_elsewhere :
      {alone : Bool} {s : Session}
      → Reach alone s
      → (stored : Option Text) → Reach false (record s { stored_token = stored })

-- A user comes with the token of the state and a socket that was opened with it, and without a user
-- there is no socket.
pub record Agrees (s : Session) : Type 0 where
  pub signed_in :
      (user : PublicUser)
      → s.user ≡ some user
      → (token : Text) × (s.token ≡ some token) × (s.socket ≡ some (record { token = token }))
  pub signed_out : s.user ≡ none → s.socket ≡ none

abbrev pub IsStored : Bool → Session → Type 0
IsStored true s = s.stored_token ≡ s.token
IsStored false s = Unit

-- While the request of the mount is under way, the page is loading.
record Invariant (s : Session) : Type 0 where
  agrees : Agrees s
  restoring :
      (token : Text)
      → s.restoring ≡ some token
      → (s.loading ≡ true) × (s.user ≡ none) × (s.token ≡ some token)

mount-Invariant : (stored : Option Text) → Invariant (mount stored)
unfolding mount
mount-Invariant none = record {
  agrees = record { signed_in = λ u h. cc; signed_out = λ h. refl };
  restoring = λ t h. cc;
}
mount-Invariant (some t) = elim (Bool-cases (has_token (some t))) [
  | inl some_token ↦ rw some_token (record {
    agrees = record { signed_in = λ u h. cc; signed_out = λ h. refl };
    restoring = λ t' h. (refl, refl, h);
  })
  | inr empty ↦ rw empty (record {
    agrees = record { signed_in = λ u h. cc; signed_out = λ h. refl };
    restoring = λ t' h. cc;
  })
]

settle_restored-Invariant :
    (s : Session) (answer : Answer PublicUser) (o : Option Text)
    → s.restoring ≡ o
    → Invariant s
    → Invariant (settle_restored answer o s)
unfolding settle_restored connect_socket
settle_restored-Invariant s answer none e i = i
settle_restored-Invariant s (received me) (some token) busy i = record {
  agrees = record {
    signed_in = λ u h. (token, (i.restoring token busy).2, refl);
    signed_out = λ h. cc;
  };
  restoring = λ t h. cc;
}
settle_restored-Invariant s (failed message) (some token) busy i = record {
  agrees = record {
    signed_in = λ u h. cc;
    signed_out = λ h. i.agrees.signed_out (i.restoring token busy).1;
  };
  restoring = λ t h. cc;
}

app_shell-loaded : (s : Session) → app_shell s ≢ loading_screen → s.loading ≡ false
unfolding app_shell
app_shell-loaded s h = elim (Bool-cases s.loading) [
  | inl loading ↦ absurd (h (rw loading refl))
  | inr loaded ↦ loaded
]

-- Once a page shows, nothing is being restored.
idle :
    (s : Session)
    → Invariant s
    → app_shell s ≢ loading_screen
    → (token : Text) → s.restoring ≢ some token
idle s i h token busy = ground (arith, app_shell-loaded s h, (i.restoring token busy).0)

on_authenticated-Invariant :
    (s : Session) (answer : Answer (PublicUser × Text))
    → app_shell s ≡ auth_page
    → Invariant s
    → Invariant (on_authenticated answer s)
unfolding on_authenticated persist_session connect_socket
on_authenticated-Invariant s (received (user, token)) h i = record {
  agrees = record { signed_in = λ u e. (token, refl, refl); signed_out = λ e. cc };
  restoring = λ t busy. absurd (idle s i (λ e. cc) t busy);
}
on_authenticated-Invariant s (failed message) h i = record {
  agrees = record { signed_in = i.agrees.signed_in; signed_out = i.agrees.signed_out };
  restoring = i.restoring;
}

Step-Invariant : {s t : Session} → Step s t → Invariant s → Invariant t
unfolding on_restored start_request logout disconnect_socket unmount
Step-Invariant (restored s answer) i = settle_restored-Invariant s answer s.restoring refl i
Step-Invariant (unmounted s) i = record {
  agrees = record { signed_in = i.agrees.signed_in; signed_out = i.agrees.signed_out };
  restoring = λ t h. cc;
}
Step-Invariant (submitted s h) i = record {
  agrees = record { signed_in = i.agrees.signed_in; signed_out = i.agrees.signed_out };
  restoring = i.restoring;
}
Step-Invariant (authenticated s answer h) i = on_authenticated-Invariant s answer h i
Step-Invariant (logged_out s h) i = record {
  agrees = record { signed_in = λ u e. cc; signed_out = λ e. refl };
  restoring = λ t busy. absurd (idle s i (λ e. cc) t busy);
}

settle_restored-stored :
    (s : Session) (answer : Answer PublicUser) (o : Option Text)
    → s.stored_token ≡ s.token
    → (settle_restored answer o s).stored_token ≡ (settle_restored answer o s).token
unfolding settle_restored connect_socket
settle_restored-stored s answer none h = h
settle_restored-stored s (received me) (some token) h = h
settle_restored-stored s (failed message) (some token) h = refl

Step-stored : {s t : Session} → Step s t → s.stored_token ≡ s.token → t.stored_token ≡ t.token
unfolding on_restored start_request logout disconnect_socket unmount on_authenticated
    persist_session connect_socket
Step-stored (restored s answer) h = settle_restored-stored s answer s.restoring h
Step-stored (unmounted s) h = h
Step-stored (submitted s shown) h = h
Step-stored (authenticated s (received (user, token)) shown) h = refl
Step-stored (authenticated s (failed message) shown) h = h
Step-stored (logged_out s shown) h = refl

Step-IsStored : (alone : Bool) {s t : Session} → Step s t → IsStored alone s → IsStored alone t
Step-IsStored true step h = Step-stored step h
Step-IsStored false step h = tt

Reach-Invariant : {alone : Bool} {s : Session} → Reach alone s → Invariant s
Reach-Invariant (mounted stored) = mount-Invariant stored
Reach-Invariant (later r step) = Step-Invariant step (Reach-Invariant r)
Reach-Invariant (written_elsewhere r stored) =
    let i = Reach-Invariant r in
    record {
      agrees = record { signed_in = i.agrees.signed_in; signed_out = i.agrees.signed_out };
      restoring = i.restoring;
    }

mount-stored : (stored : Option Text) → (mount stored).stored_token ≡ (mount stored).token
unfolding mount
mount-stored stored = elim (Bool-cases (has_token stored)) [
  | inl some_token ↦ rw some_token refl
  | inr empty ↦ rw empty refl
]

Reach-IsStored : {alone : Bool} {s : Session} → Reach alone s → IsStored alone s
Reach-IsStored (mounted stored) = mount-stored stored
Reach-IsStored (later {alone = alone} r step) = Step-IsStored alone step (Reach-IsStored r)
Reach-IsStored (written_elsewhere r stored) = tt

-- In every session that a client can reach, whatever other tabs write to localStorage, a signed-in
-- user has a socket that was opened with the token of the state, and nobody else has a socket; and
-- as long as no other tab wrote, localStorage has this token.
pub Reach-Agrees : {alone : Bool} {s : Session} → Reach alone s → Agrees s × IsStored alone s
Reach-Agrees r = ((Reach-Invariant r).agrees, Reach-IsStored r)
