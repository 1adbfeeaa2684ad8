-- ===== src/Store.antt =====
-- internal/storage/postgres: the tables that the token lifecycle reads and writes, and the
-- transactions of domain_helpers.go over them. A transaction is modelled as running alone: its row
-- locks, taken in the fixed order User, Client, Grant, Family, Generation, Access, order it against
-- the others that write the same rows. What other transactions commit before its n-th attempt is the
-- function `others n`; which database call fails, and how, is in `faults`, one entry for each call.
use one_issuer.Base.{
  ℕ, zero, suc, ◌+◌, ◌≡◌, refl, Bool, true, false, not, ◌&&◌, ◌||◌, Option, none, some, List, [],
  ◌∷◌, ◌==◌, if◌then◌else◌,
}
use one_issuer.Errors.{
  Error, query_error, Fault, serialization_failure, deadlock_detected, unique_violation,
  check_violation, no_rows, connection_lost, reply_lost, retry_exhausted, Result, ok, err,
}
use one_issuer.Text.{Bytes}
use one_issuer.Domain.{User, Client, Grant}
use one_issuer.Token.{RefreshFamily, RefreshGeneration, AccessMetadata}
use one_issuer.Audit.{Event}
pub mod Laws
pub mod Transaction
pub mod Queries
pub mod Effects
pub mod Quiet
pub mod Settled
pub mod Locks
pub mod Refresh
pub mod Minted
pub mod Code
pub mod Revoke
pub mod Snapshot

-- sqlcgen.AuthorizationCode
pub record AuthorizationCode : Type 0 where
  pub id : ℕ
  pub code_hash : Bytes
  pub auth_transaction_id : ℕ
  pub consent_grant_id : ℕ
  pub user_id : ℕ
  pub client_id : ℕ
  pub redirect_uri : Bytes
  pub scopes : List Bytes
  pub pkce_challenge : Bytes
  pub pkce_method : Bytes
  pub nonce_value : Option Bytes
  pub auth_time : ℕ
  pub created_at : ℕ
  pub expires_at : ℕ
  pub consumed_at : Option ℕ
  pub consent_grant_version : ℕ
  pub origin_session_id : Option ℕ
  pub session_binding_id : Option ℕ

-- The tables. A Client's row carries the rows of its three child tables.
pub record Db : Type 0 where
  pub users : List User
  pub clients : List Client
  pub grants : List Grant
  pub codes : List AuthorizationCode
  pub families : List RefreshFamily
  pub generations : List RefreshGeneration
  pub accesses : List AccessMetadata
  pub audits : List Event

pub record Conn : Type 0 where
  pub db : Db
  pub faults : List (Option Fault)

pub data Outcome (A : Type 0) : Type 0 where
  returned : A → Conn → Outcome A
  raised : Error → Conn → Outcome A

abbrev pub Tx : Type 0 → Type 0
Tx A = Conn → Outcome A

infixl 5 ◌>>=◌ ◌>>◌
abbrev pub ◌>>=◌ : {A B : Type 0} → Tx A → (A → Tx B) → Tx B
◌>>=◌ m f c = elim (m c) [ returned a c' ↦ f a c' | raised e c' ↦ raised e c' ]

abbrev pub ◌>>◌ : {B : Type 0} → Tx (Unit {0}) → Tx B → Tx B
m >> k = m >>= λ _. k

abbrev pub pure : {A : Type 0} → A → Tx A
pure a c = returned a c

abbrev pub raise : {A : Type 0} → Error → Tx A
raise e c = raised e c

-- `if condition { return err }`
abbrev pub raise_if : Bool → Error → Tx (Unit {0})
raise_if true e c = raised e c
raise_if false e c = returned tt c

-- `if isNoRows(err) { return e }`
abbrev pub or_raise : {A : Type 0} → Option A → Error → Tx A
or_raise none e c = raised e c
or_raise (some a) e c = returned a c

abbrev pub lift : {A : Type 0} → Result A → Tx A
lift (ok a) c = returned a c
lift (err e) c = raised e c

abbrev pub first_fault : List (Option Fault) → Option Fault
first_fault [] = none
first_fault (f ∷ fs) = f

abbrev pub later_faults : List (Option Fault) → List (Option Fault)
later_faults [] = []
later_faults (f ∷ fs) = fs

abbrev answer : {A : Type 0} → Conn → Option Fault → Result (A × Db) → Outcome A
answer c (some f) r = raised (query_error f) (record c { faults = later_faults c.faults })
answer c none (err e) = raised e (record c { faults = later_faults c.faults })
answer c none (ok (a, db)) = returned a (record c { db = db; faults = later_faults c.faults })

-- One call of the database.
unfoldable pub query : {A : Type 0} → (Db → Result (A × Db)) → Tx A
query q c = answer c (first_fault c.faults) (q c.db)

-- A query that only reads.
unfoldable pub select : {A : Type 0} → (Db → A) → Tx A
unfolding query
select f = query (λ db. ok (f db, db))

-- `isRetryableTransactionError`
unfoldable pub is_retryable : Error → Bool
is_retryable (query_error serialization_failure) = true
is_retryable (query_error deadlock_detected) = true
is_retryable _ = false

-- `BeginTx`: the transaction sees what the others have committed by then.
unfoldable pub begin_tx : (Db → Db) → Tx (Unit {0})
unfolding query
begin_tx other c = query (λ db. ok (tt, db)) (record c { db = other c.db })

abbrev is_reply_lost : Fault → Bool
is_reply_lost reply_lost = true
is_reply_lost _ = false

-- `tx.Rollback`: the tables are those of before the transaction.
abbrev pub rollback : Db → Conn → Conn
rollback db c = record c { db = db }

abbrev acknowledge : {A : Type 0} → Option Fault → A → Db → Conn → Outcome A
acknowledge none a db c = returned a (record c { faults = later_faults c.faults })
acknowledge (some f) a db c =
    if is_reply_lost f
    then raised (query_error f) (record c { faults = later_faults c.faults })
    else raised (query_error f) (rollback db (record c { faults = later_faults c.faults }))

-- `tx.Commit`: an error leaves it open whether the transaction was committed.
unfoldable pub commit : {A : Type 0} → A → Db → Tx A
commit a db c = acknowledge (first_fault c.faults) a db c

module _ (others : ℕ → Db → Db) where
  -- `inTx`, with the attempts that are left and the number of this attempt.
  unfoldable pub in_tx_from : {A : Type 0} → ℕ → ℕ → (ℕ → Tx A) → Tx A
  in_tx_from zero attempt operation c = raised (query_error retry_exhausted) c
  in_tx_from (suc left) attempt operation c = elim (begin_tx (others attempt) c) [
    | raised e c1 ↦ raised e c1
    | returned _ c1 ↦ elim (operation attempt c1) [
      | returned a c2 ↦ commit a c1.db c2
      | raised e c2 ↦
          let again = in_tx_from left (suc attempt) operation (rollback c1.db c2) in
          if attempt == 0 && is_retryable e then again else raised e (rollback c1.db c2)
    ]
  ]

  -- At most two attempts: `maxTransactionAttempts`.
  unfoldable pub in_tx : {A : Type 0} → (ℕ → Tx A) → Tx A
  unfolding in_tx_from
  in_tx operation = in_tx_from 2 0 operation
