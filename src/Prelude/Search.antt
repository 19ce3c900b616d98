-- ===== src/Prelude/Search.antt =====
-- Laws of the searches of `Prelude.Lists`: how they act on appended and on mapped lists, and what
-- they tell of the elements.
use Prim.Native.Nat.{◌+◌}
use mathlib.Core.Path.{◌≡◌, refl, subst}
use mathlib.Core.Logic.{inl, inr}
use mathlib.Core.Bool.{Bool, true, false, ◌&&◌, ◌||◌}
use mathlib.Core.List.{List, [], ◌∷◌, ◌++◌, map}
use mathlib.Core.Option
use mathlib.Core.Option.{Option, none, some}
use native.Mathlib.Omega.{arith}
use react_websocket_chat.Prelude.Tests.{Bool-cases}
use react_websocket_chat.Prelude.Lists.{length, filter, find, any, count}

module _ {ℓ κ} {A : Type ℓ} (P : A → Type κ) where
  -- Every element has the property.
  abbrev pub All : List A → Type κ
  All [] = Unit
  All (x ∷ xs) = P x × All xs

  pub All-append : (xs ys : List A) → All xs → All ys → All (xs ++ ys)
  All-append [] ys h k = k
  All-append (x ∷ xs) ys (hx, h) k = (hx, All-append xs ys h k)

  pub All-split : (xs ys : List A) → All (xs ++ ys) → All xs × All ys
  All-split [] ys h = (tt, h)
  All-split (x ∷ xs) ys (hx, h) = let (a, b) = All-split xs ys h in ((hx, a), b)

  pub All-of : (xs : List A) → ((x : A) → P x) → All xs
  All-of [] h = tt
  All-of (x ∷ xs) h = (h x, All-of xs h)

  -- What a search finds has what all elements have.
  pub All-find : (p : A → Bool) (xs : List A) (x : A) → All xs → find p xs ≡ some x → P x
  All-find p [] x h e = cc
  All-find p (y ∷ xs) x (hy, h) e = elim (Bool-cases (p y)) [
    | inl here ↦ let same : y ≡ x = ground arith in subst P same hy
    | inr later ↦ All-find p xs x h (rw later at e)
  ]

module _ {ℓ} {A : Type ℓ} (p : A → Bool) where
  pub find-true : (xs : List A) (x : A) → find p xs ≡ some x → p x ≡ true
  find-true [] x e = cc
  find-true (y ∷ xs) x e = ground (arith, find-true xs x)

  pub any-append : (xs ys : List A) → any p (xs ++ ys) ≡ (any p xs || any p ys)
  any-append [] ys = refl
  any-append (x ∷ xs) ys = ground (arith, any-append xs ys)

  pub count-append : (xs ys : List A) → count p (xs ++ ys) ≡ count p xs + count p ys
  count-append [] ys = omega arith
  count-append (x ∷ xs) ys = ground (arith, count-append xs ys)

  pub filter-append : (xs ys : List A) → filter p (xs ++ ys) ≡ filter p xs ++ filter p ys
  filter-append [] ys = refl
  filter-append (x ∷ xs) ys = ground (arith, filter-append xs ys)

  pub length-filter : (xs : List A) → length (filter p xs) ≡ count p xs
  length-filter [] = refl
  length-filter (x ∷ xs) = ground (arith, length-filter xs)

  pub count-filter :
      (q : A → Bool) (xs : List A) → count p (filter q xs) ≡ count (λ x. q x && p x) xs
  count-filter q [] = refl
  count-filter q (x ∷ xs) = ground (arith, count-filter q xs)

  pub filter_of_count-zero : (xs : List A) → count p xs ≡ 0 → filter p xs ≡ []
  filter_of_count-zero [] h = refl
  filter_of_count-zero (x ∷ xs) h = ground (arith, filter_of_count-zero xs)

  pub find_of_count-zero : (xs : List A) → count p xs ≡ 0 → find p xs ≡ none
  find_of_count-zero [] h = refl
  find_of_count-zero (x ∷ xs) h = ground (arith, find_of_count-zero xs)

  pub count-zero : (xs : List A) → All (λ x. p x ≡ false) xs → count p xs ≡ 0
  count-zero [] h = refl
  count-zero (x ∷ xs) h = ground (arith, count-zero xs)

  pub find_of_any : (xs : List A) → any p xs ≡ true → (x : A) × (find p xs ≡ some x) × (p x ≡ true)
  find_of_any [] h = absurd (ground arith)
  find_of_any (x ∷ xs) h = elim (Bool-cases (p x)) [
    | inl here ↦ (x, rw here, here)
    | inr later ↦
        let (y, found, holds) = find_of_any xs (rw later at h) in (y, rw later found, holds)
  ]

module _ {ℓ} {A : Type ℓ} (p : A → Bool) (f : A → A) (keep : (x : A) → p (f x) ≡ p x) where
  -- A test that does not see the change finds the changed element.
  pub find-map : (xs : List A) → find p (map f xs) ≡ Option.map f (find p xs)
  find-map [] = refl
  find-map (x ∷ xs) = ground (arith, keep x, find-map xs)

  pub count-map : (xs : List A) → count p (map f xs) ≡ count p xs
  count-map [] = refl
  count-map (x ∷ xs) = ground (arith, keep x, count-map xs)
