-- ===== src/Store/Refresh/Invariant.antt =====
-- The invariant of the Refresh Token tables: a family has at most one unconsumed generation, and
-- identifiers, hashes and generation numbers are unique.
use one_issuer.Base.{ℕ, zero, suc, ◌≤◌, ◌≡◌, ap, inl, inr, none, List, ◌∷◌, ◌==◌, arith, Bool-cases}
use one_issuer.Errors.{Error, Result}
use one_issuer.Text.{Bytes}
use one_issuer.Token.{
  RefreshFamily, RefreshGeneration, RefreshInput, RefreshAuthority, RefreshMinted,
}
use one_issuer.Store.{Db, Conn, Outcome, returned, raised}
use one_issuer.Store.Laws.{Outcome-cases}
use one_issuer.Store.Transaction.{start_db}
use one_issuer.Store.Queries.{amend, is_unconsumed, consumed}
use one_issuer.Store.Refresh.{Locked, Exchange, replacement, exchange_refresh_token}
use one_issuer.Store.Refresh.Authority.{Passed, LockedIn-Passed}
use one_issuer.Store.Refresh.Writes.{Rotated}
use one_issuer.Store.Refresh.Branches.{Exchanged}
use one_issuer.Store.Refresh.Ending.{exchange_refresh_token-Succeeded}
use one_issuer.Store.Refresh.Failing.{Failed, exchange_refresh_token-Failed}
use one_issuer.Store.Refresh.Count.{
  live_count, NoClash, live_count-consume, live_count-amend, NoClash-amend,
}

pub record IsRefreshStore (db : Db) : Type 0 where
  pub one_live : (family : ℕ) → live_count family db.generations ≤ 1
  pub no_clash : NoClash db.generations

-- What other transactions commit keeps a property of the tables.
abbrev pub Keeps : (ℕ → Db → Db) → (Db → Type 0) → Type 0
Keeps others P = (n : ℕ) (db : Db) → P db → P (others n db)

pub start_db-keeps :
    (others : ℕ → Db → Db) (P : Db → Type 0)
    → Keeps others P
    → (db : Db) (n : ℕ) → P db
    → P (start_db others db n)
start_db-keeps others P k db zero h = h
start_db-keeps others P k db (suc n) h =
    k n (start_db others db n) (start_db-keeps others P k db n h)

-- The connection after a call.
abbrev pub conn_of : {A : Type 0} → Outcome A → Conn
conn_of (returned a c) = c
conn_of (raised e c) = c

Rotated-IsRefreshStore :
    (db left : Db) (l : Locked) (scopes : List Bytes) (minted : RefreshMinted)
    (input : RefreshInput)
    → Passed db input l
    → l.presented.consumed_at ≡ none
    → Rotated db left l scopes minted input.now
    → IsRefreshStore db
    → IsRefreshStore left
Rotated-IsRefreshStore db left l scopes minted input p unconsumed w h =
    let after = amend (is_unconsumed l.presented.id) (consumed input.now) db.generations in
    let gens : replacement l minted ∷ after ≡ left.generations =
      ap (λ db. db.generations) w.left_eq in
    record {
      one_live = λ family. rw (← gens) (elim (Bool-cases (l.family.id == family)) [
        | inl this ↦ ground (
          arith,
          live_count-consume family l.presented.id input.now db.generations l.presented
              p.generation_stored unconsumed (ground (arith, p.generation_family)),
          h.one_live family,
        )
        | inr other ↦ ground (
          arith,
          live_count-amend family l.presented.id input.now db.generations,
          h.one_live family,
        )
      ]);
      no_clash =
          rw (← gens)
            (w.no_clash, NoClash-amend l.presented.id input.now db.generations h.no_clash);
    }

module _ (sha256 : Bytes → Bytes) (others : ℕ → Db → Db)
    (mint : ℕ → RefreshAuthority → Result RefreshMinted) where
  Exchanged-IsRefreshStore :
      (n : ℕ) (db left : Db) (candidate : RefreshGeneration) (family : RefreshFamily)
      (input : RefreshInput) (exchange : Exchange)
      → Exchanged sha256 others mint n db left candidate family input exchange
      → IsRefreshStore db
      → IsRefreshStore left
  Exchanged-IsRefreshStore n db left candidate family input exchange x h = elim x.did [
    | inl (unconsumed, issued) ↦
        Rotated-IsRefreshStore db left x.l issued.scopes issued.minted input
          (LockedIn-Passed db candidate family input x.l x.locked) unconsumed issued.writes h
    | inr (at, consumed, revoked, answer) ↦
        let gens : db.generations ≡ left.generations = ap (λ db. db.generations) revoked.left_eq in
        record { one_live = rw (← gens) h.one_live; no_clash = rw (← gens) h.no_clash }
  ]

  -- If the other transactions keep it, ExchangeRefreshToken keeps it, whether it returns tokens or
  -- an error: no family has two unconsumed generations, and no two generations share an identifier,
  -- a hash, or a number within their family.
  pub exchange_refresh_token-IsRefreshStore :
      Keeps others IsRefreshStore
      → (input : RefreshInput) (c : Conn) → IsRefreshStore c.db
      → IsRefreshStore (conn_of (exchange_refresh_token sha256 others mint input c)).db
  exchange_refresh_token-IsRefreshStore keeps input c h =
      let result = exchange_refresh_token sha256 others mint input c in
      elim (Outcome-cases result) [
        | inl (response, c', e) ↦
            let s = exchange_refresh_token-Succeeded sha256 others mint input c e in
            rw e (
              Exchanged-IsRefreshStore s.attempt (start_db others c.db (suc s.attempt)) c'.db
                s.candidate s.candidate_family input _ s.exchanged (at_start (suc s.attempt)))
        | inr (bad, c', e) ↦
            rw e
              (failed c'.db bad (exchange_refresh_token-Failed sha256 others mint input c c' bad e))
      ]
    where
      at_start : (n : ℕ) → IsRefreshStore (start_db others c.db n)
      at_start n = start_db-keeps others IsRefreshStore keeps c.db n h

      failed :
          (left : Db) (bad : Error)
          → Failed sha256 others mint input c.db left bad
          → IsRefreshStore left
      failed left bad (n, inl kept) = rw kept (at_start n)
      failed left bad (n, inr (candidate, family, exchange, x, why)) =
          Exchanged-IsRefreshStore n (start_db others c.db (suc n)) left candidate family input
            exchange x (at_start (suc n))
