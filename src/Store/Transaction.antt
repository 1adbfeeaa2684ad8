-- ===== src/Store/Transaction.antt =====
-- How inTx ends: it reports a result only after a committed attempt, and an error leaves the tables
-- as the attempt found them, unless the transaction was committed and only its answer was lost.
use one_issuer.Base.{
  ℕ, zero, suc, ◌≡◌, refl, ap, ◌⊎◌, inl, inr, ◌&&◌, Option, none, some, ◌==◌, arith, Option-cases,
  Bool-cases,
}
use one_issuer.Errors.{Error, query_error, Fault, reply_lost}
use one_issuer.Store.{
  Db, Conn, Outcome, returned, raised, Tx, first_fault, later_faults, query, is_retryable, begin_tx,
  commit, acknowledge, rollback, in_tx_from, in_tx,
}
use one_issuer.Store.Laws.{Outcome-cases}

module _ (others : ℕ → Db → Db) where
  -- The tables before attempt n, of those the operation fails: others commit in between.
  abbrev pub start_db : Db → ℕ → Db
  start_db db zero = db
  start_db db (suc n) = others n (start_db db n)

  module _ {A : Type 0} (operation : ℕ → Tx A) (db : Db) where
    -- Attempt n ran on the tables that it found, and left these.
    pub record Ran (n : ℕ) (a : A) (left : Db) : Type 0 where
      pub before : Conn
      pub after : Conn
      pub found : before.db ≡ start_db db (suc n)
      pub result : operation n before ≡ returned a after
      pub left_eq : left ≡ after.db

    abbrev pub Ended : Outcome A → Type 0
    Ended (returned a c) = (n : ℕ) × Ran n a c.db
    Ended (raised e c) =
        (n : ℕ) × ((c.db ≡ start_db db n) ⊎ ((a : A) × Ran n a c.db × (e ≡ query_error reply_lost)))

    begin_tx-db :
        (n : ℕ) (c : Conn)
        → c.db ≡ start_db db n
        → ((c1 : Conn) × (begin_tx (others n) c ≡ returned tt c1) × (c1.db ≡ start_db db (suc n)))
          ⊎ ((e : Error) × (c1 : Conn) × (begin_tx (others n) c ≡ raised e c1)
              × (c1.db ≡ start_db db (suc n)))
    unfolding begin_tx query
    begin_tx-db n c h = elim (Option-cases (first_fault c.faults)) [
      | inl e ↦ inl (
        record c { db = others n c.db; faults = later_faults c.faults },
        ground arith,
        ap (others n) h,
      )
      | inr (f, e) ↦ inr (
        query_error f,
        record c { db = others n c.db; faults = later_faults c.faults },
        ground arith,
        ap (others n) h,
      )
    ]

    acknowledge-Ended :
        (n : ℕ) (c1 c2 : Conn) (a : A)
        → c1.db ≡ start_db db (suc n)
        → operation n c1 ≡ returned a c2
        → (answer : Option Fault) → Ended (acknowledge answer a c1.db c2)
    acknowledge-Ended n c1 c2 a h e none =
        (n, record { before = c1; after = c2; found = h; result = e; left_eq = refl })
    acknowledge-Ended n c1 c2 a h e (some reply_lost) = (
      n,
      inr (a, record { before = c1; after = c2; found = h; result = e; left_eq = refl }, refl),
    )
    acknowledge-Ended n c1 c2 a h e (some _) = (suc n, inl h)

    -- A failed attempt is rolled back, and repeated while attempts are left and it may be.
    pub in_tx_from-Ended :
        (left n : ℕ) (c : Conn)
        → c.db ≡ start_db db n
        → Ended (in_tx_from others left n operation c)
    unfolding in_tx_from commit
    in_tx_from-Ended zero n c h = (n, inl h)
    in_tx_from-Ended (suc left) n c h = elim (begin_tx-db n c h) [
      | inr (e, c1, failed, found) ↦ rw (failed, in_tx_from) (suc n, inl found)
      | inl (c1, began, found) ↦ elim (Outcome-cases (operation n c1)) [
        | inl (a, c2, e) ↦
            rw (began, e, in_tx_from) (acknowledge-Ended n c1 c2 a found e (first_fault c2.faults))
        | inr (bad, c2, e) ↦ elim (Bool-cases (n == 0 && is_retryable bad)) [
          | inl again ↦
              rw (began, e, again, in_tx_from)
                (in_tx_from-Ended left (suc n) (rollback c1.db c2) found)
          | inr stop ↦ rw (began, e, stop, in_tx_from) (suc n, inl found)
        ]
      ]
    ]

    -- A transaction that reports a result committed the attempt that made it; one that reports an
    -- error left the tables as others had made them, or its commit went through unacknowledged.
    pub in_tx-Ended : (c : Conn) → c.db ≡ db → Ended (in_tx others operation c)
    unfolding in_tx
    in_tx-Ended c h = in_tx_from-Ended 2 0 c h
