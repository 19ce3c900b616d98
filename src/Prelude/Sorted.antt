-- ===== src/Prelude/Sorted.antt =====
-- Lists sorted by a falling key, cut in two.
use Prim.Native.Nat.{ℕ, zero, suc, ◌+◌, ◌≤◌, min}
use mathlib.Core.Path.{◌≡◌, refl}
use mathlib.Core.List.{List, [], ◌∷◌, ◌++◌}
use mathlib.Core.Bool.{Bool}
use native.Mathlib.Omega.{arith}
use react_websocket_chat.Prelude.Lists.{length, take, count, Below, Descending}

module _ {ℓ} {A : Type ℓ} where
  abbrev pub drop : ℕ → List A → List A
  drop zero xs = xs
  drop (suc n) [] = []
  drop (suc n) (x ∷ xs) = drop n xs

  pub take-append-drop : (n : ℕ) (xs : List A) → take n xs ++ drop n xs ≡ xs
  take-append-drop zero xs = refl
  take-append-drop (suc n) [] = refl
  take-append-drop (suc n) (x ∷ xs) = rw (take-append-drop n xs)

  pub length-take : (n : ℕ) (xs : List A) → length (take n xs) ≡ min n (length xs)
  length-take zero xs = omega arith
  length-take (suc n) [] = omega arith
  length-take (suc n) (x ∷ xs) = omega (arith, length-take n xs)

  pub take_of_length-le : (n : ℕ) (xs : List A) → length xs ≤ n → take n xs ≡ xs
  take_of_length-le zero [] h = refl
  take_of_length-le zero (x ∷ xs) h = absurd (omega arith)
  take_of_length-le (suc n) [] h = refl
  take_of_length-le (suc n) (x ∷ xs) h = rw (take_of_length-le n xs (omega arith))

  pub take-take-suc : (n : ℕ) (xs : List A) → take n (take (suc n) xs) ≡ take n xs
  take-take-suc zero xs = refl
  take-take-suc (suc n) [] = refl
  take-take-suc (suc n) (x ∷ xs) = rw (take-take-suc n xs)

  pub count-take-drop :
      (p : A → Bool) (n : ℕ) (xs : List A) → count p (take n xs) + count p (drop n xs) ≡ count p xs
  count-take-drop p zero xs = omega arith
  count-take-drop p (suc n) [] = omega arith
  count-take-drop p (suc n) (x ∷ xs) = ground (arith, count-take-drop p n xs)

module _ {ℓ} {A : Type ℓ} (key : A → ℕ) where
  pub Below-mono : (a b : ℕ) (xs : List A) → a ≤ b → Below key a xs → Below key b xs
  Below-mono a b [] h k = tt
  Below-mono a b (x ∷ xs) h (kx, k) = (omega arith, Below-mono a b xs h k)

  pub Below-take : (b n : ℕ) (xs : List A) → Below key b xs → Below key b (take n xs)
  Below-take b zero xs h = tt
  Below-take b (suc n) [] h = tt
  Below-take b (suc n) (x ∷ xs) (hx, h) = (hx, Below-take b n xs h)

  pub Descending-take : (n : ℕ) (xs : List A) → Descending key xs → Descending key (take n xs)
  Descending-take zero xs h = tt
  Descending-take (suc n) [] h = tt
  Descending-take (suc n) (x ∷ xs) (hx, h) = (Below-take (key x) n xs hx, Descending-take n xs h)
