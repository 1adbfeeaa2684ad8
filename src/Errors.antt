-- ===== src/Errors.antt =====
-- The sentinel errors of the internal packages, and results that carry one. A database failure is
-- the error that the driver reports, wrapped by internal/storage/postgres.
use one_issuer.Base.{◌≡◌, refl, Bool, true, false, ◌⊎◌, inl, inr}

-- What PostgreSQL or the connection to it reports in place of a query's rows.
pub data Fault : Type 0 where
  serialization_failure deadlock_detected : Fault
  unique_violation check_violation no_rows connection_lost : Fault
  -- The transaction was committed and the answer was lost.
  reply_lost : Fault
  -- The last attempt of a transaction was used up.
  retry_exhausted : Fault

pub data Error : Type 0 where
  -- consent.ErrInvalid, consent.ErrNotFound
  consent_invalid consent_not_found : Error
  -- client.ErrNotFound
  client_not_found : Error
  -- authorization.ErrInvalid, authorization.ErrNotFound
  authorization_invalid authorization_not_found : Error
  -- token.ErrInvalid, token.ErrInvalidGrant, token.ErrInvalidToken, token.ErrInvalidScope
  token_invalid invalid_grant invalid_token invalid_scope : Error
  -- audit.ErrInvalidEvent
  invalid_event : Error
  -- An error without a sentinel: the random source ended, or signing failed.
  generation_failed signing_failed : Error
  -- postgres.Error around a driver error
  query_error : Fault → Error

-- `(value, error)`: one of the two is set.
pub data Result {ℓ} (A : Type ℓ) : Type ℓ where
  err : Error → Result A
  ok : A → Result A

-- `if condition { return err }`
abbrev pub reject_if : Bool → Error → Result (Unit {0})
reject_if false failure = ok tt
reject_if true failure = err failure

infixl 5 ◌>>=◌ ◌>>◌
-- `value, err := m; if err != nil { return err }`
abbrev pub ◌>>=◌ {ℓ κ} : {A : Type ℓ} {B : Type κ} → Result A → (A → Result B) → Result B
◌>>=◌ (err failure) next = err failure
◌>>=◌ (ok value) next = next value

-- The same, of a call that returns only an error.
abbrev pub ◌>>◌ {ℓ} : {B : Type ℓ} → Result (Unit {0}) → Result B → Result B
◌>>◌ check rest = check >>= λ _. rest

pub Result-cases {ℓ} :
    {A : Type ℓ} (r : Result A) → ((a : A) × (r ≡ ok a)) ⊎ ((e : Error) × (r ≡ err e))
Result-cases (ok a) = inl (a, refl)
Result-cases (err e) = inr (e, refl)

-- A successful call, and what follows it.
pub >>=-elim {ℓ κ ι} :
    {A : Type ℓ} {B : Type κ} {P : Type ι} (m : Result A) (f : A → Result B) {b : B}
    → (m >>= f) ≡ ok b
    → ((a : A) → m ≡ ok a → f a ≡ ok b → P)
    → P
>>=-elim (ok a) f h next = next a refl h
>>=-elim (err e) f h next = cc

pub reject_if-eq-ok :
    (refused : Bool) (e : Error) {u : Unit {0}} → reject_if refused e ≡ ok u → refused ≡ false
reject_if-eq-ok true e h = cc
reject_if-eq-ok false e h = refl
