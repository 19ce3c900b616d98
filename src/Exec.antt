-- ===== src/Exec.antt =====
-- Async functions that write to a store and may throw. What was written before a throw stays
-- written, so the store comes back beside the exception too. `AppError` is the class of
-- src/middlewares/errorHandler.middleware.ts; the other exceptions come from zod and mongoose.
use react_websocket_chat.Prelude.{ℕ, String, List, ◌≡◌, ◌≢◌, refl, ap, ◌⊎◌, inl, inr, arith}

-- An issue of a ZodError: its path and its message.
pub record Issue : Type 0 where
  pub path : String
  pub message : String

pub record AppError : Type 0 where
  pub message : String
  pub status_code : ℕ

pub data Thrown : Type 0 where
  app_error : AppError → Thrown
  zod_error : List Issue → Thrown
  -- mongoose: a string that is no ObjectId, a document that its schema refuses, one that repeats a
  -- value of a unique index; MongoDB: a regular expression that is none
  cast_error validation_error duplicate_key bad_query : Thrown

pub data Result {ℓ} (A : Type ℓ) : Type ℓ where
  ok : A → Result A
  err : Thrown → Result A

abbrev pub Exec {ℓ} : Type ℓ → Type ℓ → Type ℓ
Exec S A = S → Result A × S

module _ {ℓ} {S A : Type ℓ} where
  abbrev pub pure : A → Exec S A
  pure a s = (ok a, s)

  abbrev pub throw : Thrown → Exec S A
  throw e s = (err e, s)

  -- A computation that only reads the store.
  abbrev pub query : (S → Result A) → Exec S A
  query f s = (f s, s)

  abbrev pub gets : (S → A) → Exec S A
  gets f s = (ok (f s), s)

module _ {ℓ} {S A B : Type ℓ} where
  abbrev pub continue : Result A → (A → Exec S B) → Exec S B
  continue (ok a) f s = f a s
  continue (err e) f s = (err e, s)

  infixl 10 ◌>>=◌ ◌>>◌
  abbrev pub ◌>>=◌ : Exec S A → (A → Exec S B) → Exec S B
  ◌>>=◌ m f s = let (r, s') = m s in continue r f s'

  abbrev pub ◌>>◌ : Exec S A → Exec S B → Exec S B
  m >> n = m >>= λ _. n

module _ {ℓ} {A B : Type ℓ} where
  -- The same for results alone.
  abbrev pub and_then : Result A → (A → Result B) → Result B
  and_then (ok a) f = f a
  and_then (err e) f = err e

pub Result-cases {ℓ} :
    {A : Type ℓ} (r : Result A) → ((e : Thrown) × (r ≡ err e)) ⊎ ((a : A) × (r ≡ ok a))
Result-cases (ok a) = inr (a, refl)
Result-cases (err e) = inl (e, refl)

-- Inversion of a run that returned.
pub continue-ok {ℓ} :
    {S A B : Type ℓ} (r : Result A) (f : A → Exec S B) (s : S) (b : B) (s' : S)
    → continue r f s ≡ (ok b, s')
    → (a : A) × (r ≡ ok a) × (f a s ≡ (ok b, s'))
continue-ok (ok a) f s b s' h = (a, refl, h)
continue-ok (err e) f s b s' h = absurd (err≢ok (ap (λ x. x.0) h))
  where
    err≢ok : err e ≢ ok b
    err≢ok p = cc

pub and_then-ok {ℓ} :
    {A B : Type ℓ} (r : Result A) (f : A → Result B) (b : B)
    → and_then r f ≡ ok b
    → (a : A) × (r ≡ ok a) × (f a ≡ ok b)
and_then-ok (ok a) f b h = (a, refl, h)
and_then-ok (err e) f b h = cc

pub ok-injective {ℓ} : {A : Type ℓ} (a b : A) → ok a ≡ ok b → a ≡ b
ok-injective a b h = ground (arith, h)
