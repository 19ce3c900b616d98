-- ===== src/Forms/Search.antt =====
-- The search of NewConversationModal waits until the user stops typing
-- (frontend-ui/src/components/NewConversationModal.tsx).
use react_websocket_chat.Prelude.{
  ℕ, ◌+◌, ◌<◌, ◌≡◌, refl, ap, ◌∙◌, true, false, List, [], ◌∷◌, none, some, arith,
}
use react_websocket_chat.Sanitize.{Text}
use react_websocket_chat.Forms.{Modal, search_of, is_due, on_timer, change_search}

-- Texts that the search is changed to, with the times; the timer fires when it is due.
unfoldable pub keystrokes : List (ℕ × Text) → Modal → Modal
unfolding change_search on_timer
keystrokes [] modal = modal
keystrokes ((now, text) ∷ keys) modal =
    keystrokes keys (change_search now text (on_timer now modal))

-- Every change comes before the timer of the one before is due.
abbrev pub IsBurst : (due : ℕ) → List (ℕ × Text) → Type 0
IsBurst due [] = Unit
IsBurst due ((now, text) ∷ keys) = (now < due) × IsBurst (now + 300) keys

abbrev pub last_due : ℕ → List (ℕ × Text) → ℕ
last_due due [] = due
last_due due ((now, text) ∷ keys) = last_due (now + 300) keys

abbrev pub last_text : Text → List (ℕ × Text) → Text
last_text text [] = text
last_text text ((now, next) ∷ keys) = last_text next keys

on_timer_early :
    (now due : ℕ) (modal : Modal) → modal.timer ≡ some due → now < due → on_timer now modal ≡ modal
unfolding on_timer
on_timer_early now due modal running early =
    let wait : is_due now modal.timer ≡ false = ap (is_due now) running ∙ ground arith in
    rw wait refl

-- What a burst leaves of the modal.
record IsWaiting (due : ℕ) (keys : List (ℕ × Text)) (before after : Modal) : Type 0 where
  pending : after.pending ≡ before.pending
  search : after.search ≡ last_text before.search keys
  timer : after.timer ≡ some (last_due due keys)

keystrokes-IsWaiting :
    (keys : List (ℕ × Text)) (due : ℕ) (modal : Modal)
    → modal.timer ≡ some due
    → IsBurst due keys
    → IsWaiting due keys modal (keystrokes keys modal)
unfolding keystrokes change_search
keystrokes-IsWaiting [] due modal running burst = record {
  pending = refl;
  search = refl;
  timer = running;
}
keystrokes-IsWaiting ((now, text) ∷ keys) due modal running (early, burst) =
    let rest = keystrokes-IsWaiting keys (now + 300) (change_search now text modal) refl burst in
    let same : keystrokes keys (change_search now text (on_timer now modal))
        ≡ keystrokes keys (change_search now text modal) =
      ap (λ x. keystrokes keys (change_search now text x))
        (on_timer_early now due modal running early) in
    record {
      pending = ap (λ x. x.pending) same ∙ rest.pending;
      search = ap (λ x. x.search) same ∙ rest.search;
      timer = ap (λ x. x.timer) same ∙ rest.timer;
    }

-- While the search is changed again before its timer is due, no request is sent. When the last timer
-- is due, one is sent, for the last text, and no timer is left.
pub keystrokes-send_once :
    (keys : List (ℕ × Text)) (due : ℕ) (modal : Modal)
    → modal.timer ≡ some due
    → IsBurst due keys
    → ((keystrokes keys modal).pending ≡ modal.pending)
      × ((on_timer (last_due due keys) (keystrokes keys modal)).pending
          ≡ search_of (last_text modal.search keys) ∷ modal.pending)
      × ((on_timer (last_due due keys) (keystrokes keys modal)).timer ≡ none)
unfolding on_timer
keystrokes-send_once keys due modal running burst =
    let w = keystrokes-IsWaiting keys due modal running burst in
    let now_due : is_due (last_due due keys) (keystrokes keys modal).timer ≡ true =
      ap (is_due (last_due due keys)) w.timer ∙ ground arith in
    rw now_due (w.pending, rw (w.search, w.pending) refl, refl)
