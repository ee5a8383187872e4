-- ===== src/Exceptions.antt =====
-- backend/app/core/exceptions.py and the table of backend/app/api/errors.py.
-- An exception is its class: the texts of messages are not modelled.
use interview_trainer.Prelude.{ℕ, Bool, true, false, Option, none, some, ◌≡◌, refl, ◌⊎◌, inl, inr}

pub data Error : Type 0 where
  not_found conflict invalid_input authentication premium_required : Error
  rate_limited : (retry_after : ℕ) → Error
  -- exceptions that no handler of the application knows: Python's ValueError and OverflowError,
  -- and SQLAlchemy's IntegrityError and the other errors of the database where no one catches them
  value_error overflow_error integrity_error database_error : Error

pub data Result {ℓ κ} (E : Type ℓ) (A : Type κ) : Type (ℓ ⊔ κ) where
  ok : A → Result E A
  err : E → Result E A

infixl 5 ◌>>=◌ ◌>>◌
abbrev pub ◌>>=◌ {ℓ κ μ} :
    {E : Type ℓ} {A : Type κ} {B : Type μ} → Result E A → (A → Result E B) → Result E B
ok a >>= f = f a
err e >>= f = err e

abbrev pub ◌>>◌ {ℓ κ} : {E : Type ℓ} {B : Type κ} → Result E (Unit {0}) → Result E B → Result E B
m >> k = m >>= λ _. k

-- `if not b: raise e`
abbrev pub ensure {ℓ} : {E : Type ℓ} → Bool → E → Result E (Unit {0})
ensure true e = ok tt
ensure false e = err e

-- `if x is None: raise e`
abbrev pub require {ℓ κ} : {E : Type ℓ} {A : Type κ} → Option A → E → Result E A
require none e = err e
require (some a) e = ok a

-- `_STATUS_BY_ERROR`; `handle_domain_error` is not called for the rest
unfoldable pub status_by_error : Error → Option ℕ
status_by_error not_found = some 404
status_by_error conflict = some 409
status_by_error invalid_input = some 422
status_by_error authentication = some 401
status_by_error premium_required = some 402
status_by_error (rate_limited _) = some 429
status_by_error value_error = none
status_by_error overflow_error = none
status_by_error integrity_error = none
status_by_error database_error = none

-- the `Retry-After` header
unfoldable pub retry_after_header : Error → Option ℕ
retry_after_header (rate_limited n) = some n
retry_after_header _ = none

pub Result-cases {ℓ κ} :
    {E : Type ℓ} {A : Type κ} (r : Result E A) → ((a : A) × (r ≡ ok a)) ⊎ ((e : E) × (r ≡ err e))
Result-cases (ok a) = inl (a, refl)
Result-cases (err e) = inr (e, refl)

pub ok-injective {ℓ κ} :
    {E : Type ℓ} {A : Type κ} (a b : A) → ◌≡◌ {A = Result E A} (ok a) (ok b) → a ≡ b
ok-injective a b h = cc

-- a step that is ok was reached
pub bind-ok {ℓ κ μ} :
    {E : Type ℓ} {A : Type κ} {B : Type μ} (m : Result E A) (f : A → Result E B) (b : B)
    → (m >>= f) ≡ ok b
    → (a : A) × (m ≡ ok a) × (f a ≡ ok b)
bind-ok (ok a) f b h = (a, refl, h)
bind-ok (err e) f b h = cc
