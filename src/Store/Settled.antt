-- ===== src/Store/Settled.antt =====
-- Computations that, on a connection without failures, end in a result or in one expected error.
use one_issuer.Base.{
  ℕ, zero, suc, ◌≡◌, refl, sym, ap, ◌∙◌, ◌⊎◌, inl, inr, Bool, true, false, Option, none, some, List,
  [], ◌∷◌, arith, ◌&&◌, ◌==◌, if◌then◌else◌, subst,
}
use one_issuer.Errors.{Error}
use one_issuer.Store.{
  Db, Conn, Fault, Outcome, returned, raised, Tx, ◌>>=◌, ◌>>◌, pure, raise, raise_if, or_raise,
  query, select, is_retryable, begin_tx, commit, in_tx_from, in_tx, rollback,
}
use one_issuer.Store.Laws.{Outcome-cases}
use one_issuer.Store.Quiet.{quiet}
pub mod Snapshots

-- A connection without failures is quiet.
quiet_conn : (c : Conn) → c.faults ≡ [] → c ≡ quiet c.db
quiet_conn c h = ap (λ (f : List (Option Fault)). record { db = c.db; faults = f }) h

-- The first attempt on a quiet connection, where its operation returns, and where it raises an error
-- that is not retried.
in_tx-returned :
    {A : Type 0} (others : ℕ → Db → Db) (operation : ℕ → Tx A) (db : Db) (c2 : Conn) (a : A)
    → operation 0 (quiet (others 0 db)) ≡ returned a c2
    → in_tx others operation (quiet db) ≡ commit a (others 0 db) c2
unfolding in_tx in_tx_from begin_tx query
in_tx-returned others operation db c2 a e = rw e refl

in_tx-raised :
    {A : Type 0} (others : ℕ → Db → Db) (operation : ℕ → Tx A) (db : Db) (c2 : Conn) (bad : Error)
    → operation 0 (quiet (others 0 db)) ≡ raised bad c2
    → is_retryable bad ≡ false
    → in_tx others operation (quiet db) ≡ raised bad (rollback (others 0 db) c2)
unfolding in_tx in_tx_from begin_tx query
in_tx-raised others operation db c2 bad e once = rw (e, once) refl

module _ (expected : Error → Bool) where
  -- No failure is left to come, and an error is an expected one.
  abbrev pub Settles : {A : Type 0} → Outcome A → Type 0
  Settles (returned a c) = c.faults ≡ []
  Settles (raised e c) = (expected e ≡ true) × (c.faults ≡ [])

  pub >>=-Settles :
      {A B : Type 0} (m : Tx A) (f : A → Tx B) (c : Conn)
      → Settles (m c)
      → ((a : A) (c1 : Conn) → c1.faults ≡ [] → Settles (f a c1))
      → Settles ((m >>= f) c)
  >>=-Settles m f c h next = elim (Outcome-cases (m c)) [
    | inl (a, c1, e) ↦
        subst Settles
          (sym (ap (λ o. elim o [ returned a c' ↦ f a c' | raised e c' ↦ raised e c' ]) e))
          (next a c1 (subst Settles e h))
    | inr (bad, c1, e) ↦
        subst Settles
          (sym (ap (λ o. elim o [ returned a c' ↦ f a c' | raised e c' ↦ raised e c' ]) e))
          (subst Settles e h)
  ]

  pub select-Settles : {A : Type 0} (f : Db → A) (c : Conn) → c.faults ≡ [] → Settles (select f c)
  unfolding select query
  select-Settles f c h = rw h refl

  pub or_raise-Settles :
      {A : Type 0} (o : Option A) (e : Error) (c : Conn)
      → expected e ≡ true
      → c.faults ≡ []
      → Settles (or_raise o e c)
  or_raise-Settles none e c ok h = (ok, h)
  or_raise-Settles (some a) e c ok h = h

  pub raise_if-Settles :
      (b : Bool) (e : Error) (c : Conn)
      → expected e ≡ true
      → c.faults ≡ []
      → Settles (raise_if b e c)
  raise_if-Settles true e c ok h = (ok, h)
  raise_if-Settles false e c ok h = h

  commit-Settles :
      {A : Type 0} (a : A) (db : Db) (c : Conn) → c.faults ≡ [] → Settles (commit a db c)
  unfolding commit
  commit-Settles a db c h = rw h refl

  -- The first attempt ends the transaction.
  pub in_tx-Settles :
      {A : Type 0} (others : ℕ → Db → Db) (operation : ℕ → Tx A) (c : Conn)
      → c.faults ≡ []
      → ((e : Error) → expected e ≡ true → is_retryable e ≡ false)
      → ((c1 : Conn) → c1.faults ≡ [] → Settles (operation 0 c1))
      → Settles (in_tx others operation c)
  in_tx-Settles others operation c h final runs =
      let start = quiet (others 0 c.db) in
      rw (quiet_conn c h) (elim (Outcome-cases (operation 0 start)) [
        | inl (a, c2, e) ↦
            subst Settles (sym (in_tx-returned others operation c.db c2 a e))
              (commit-Settles a (others 0 c.db) c2 (subst Settles e (runs start refl)))
        | inr (bad, c2, e) ↦
            let (known, still) = subst Settles e (runs start refl) in
            subst Settles (sym (in_tx-raised others operation c.db c2 bad e (final bad known)))
              (known, still)
      ])

  -- A row that is needed, then the rest.
  pub row_Settles :
      {A B : Type 0} (m : Tx (Option A)) (e : Error) (f : A → Tx B) (c : Conn)
      → expected e ≡ true
      → Settles (m c)
      → ((a : A) (c1 : Conn) → c1.faults ≡ [] → Settles (f a c1))
      → Settles ((m >>= λ row. or_raise row e >>= f) c)
  row_Settles m e f c ok h next =
      >>=-Settles m (λ row. or_raise row e >>= f) c h
        (λ row c1 h1. >>=-Settles (or_raise row e) f c1 (or_raise-Settles row e c1 ok h1) next)

  -- A check, then the rest.
  pub check_Settles :
      {B : Type 0} (b : Bool) (e : Error) (k : Tx B) (c : Conn)
      → expected e ≡ true
      → c.faults ≡ []
      → ((c1 : Conn) → c1.faults ≡ [] → Settles (k c1))
      → Settles ((raise_if b e >> k) c)
  check_Settles b e k c ok h next =
      >>=-Settles (raise_if b e) (λ _. k) c (raise_if-Settles b e c ok h) (λ _ c1 h1. next c1 h1)
