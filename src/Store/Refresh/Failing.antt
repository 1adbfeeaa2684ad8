-- ===== src/Store/Refresh/Failing.antt =====
-- What an error of ExchangeRefreshToken leaves in the tables.
use one_issuer.Base.{
  ℕ, suc, ◌≡◌, refl, sym, ap, ◌∙◌, ◌⊎◌, inl, inr, not, ◌||◌, subst, ◌==◌, arith, length,
}
use one_issuer.Errors.{Error, Result, invalid_grant, query_error, reply_lost}
use one_issuer.Text.{Bytes}
use one_issuer.Token.{
  RefreshFamily, RefreshGeneration, RefreshInput, RefreshAuthority, RefreshMinted,
}
use one_issuer.Store.{Db, Conn, raised, Tx, ◌>>=◌, raise_if, or_raise, in_tx}
use one_issuer.Store.Laws.{
  raise_if-eq-returned, or_raise-eq-returned, select-eq-returned, >>=-eq-raised, select-eq-raised,
  or_raise-eq-raised, raise_if-eq-raised,
}
use one_issuer.Store.Transaction.{start_db, Ended, in_tx-Ended}
use one_issuer.Store.Queries.{get_refresh_token_by_hash, lock_refresh_token_family_by_id}
use one_issuer.Store.Refresh.{
  Exchange, rotated, reuse_detected, exchange_refresh_tx, report, exchange_refresh_token,
}
use one_issuer.Store.Refresh.Branches.{Exchanged, exchange_refresh_tx-eq-returned}
use one_issuer.Store.Refresh.Ending.{Exchanged-congr}

module _ (sha256 : Bytes → Bytes) (others : ℕ → Db → Db)
    (mint : ℕ → RefreshAuthority → Result RefreshMinted) where
  -- What an error can leave: the tables as an attempt found them, or those of an attempt that was
  -- committed, after which the answer was lost or the reuse of a consumed token is reported.
  abbrev pub Failed : RefreshInput → Db → Db → Error → Type 0
  Failed input db left e =
      (n : ℕ) × ((left ≡ start_db others db n)
        ⊎ ((candidate : RefreshGeneration) × (family : RefreshFamily) × (exchange : Exchange)
            × Exchanged sha256 others mint n (start_db others db (suc n)) left candidate family
                input exchange
            × ((e ≡ query_error reply_lost) ⊎ ((exchange ≡ reuse_detected) × (e ≡ invalid_grant)))))

  report-eq-raised :
      (exchange : Exchange) (c : Conn) {e : Error} {c' : Conn}
      → report sha256 others mint exchange c ≡ raised e c'
      → (exchange ≡ reuse_detected) × (e ≡ invalid_grant) × (c ≡ c')
  unfolding report
  report-eq-raised (rotated r) c h = cc
  report-eq-raised reuse_detected c h = (refl, ground arith, ground arith)

  transaction-Failed :
      (input : RefreshInput) (db : Db) (candidate : RefreshGeneration) (family : RefreshFamily)
      (c : Conn) {e : Error} {c' : Conn}
      → c.db ≡ db
      → (do
        exchange ← in_tx others (exchange_refresh_tx sha256 others mint candidate family input)
        report sha256 others mint exchange)
          c
        ≡ raised e c'
      → Failed input db c'.db e
  transaction-Failed input db candidate family c {e} {c'} same h =
      elim (>>=-eq-raised (in_tx others operation) _ c h) [
        | inl q ↦ in_tx_failed (subst (λ o. Ended others operation db o) q ended)
        | inr (exchange, c1, q, h1) ↦
            let (n, ran) = subst (λ o. Ended others operation db o) q ended in
            let (is_reuse, refused, last) = report-eq-raised exchange c1 h1 in
            let x =
              exchange_refresh_tx-eq-returned sha256 others mint n candidate family input ran.before
                ran.result in
            (
              n,
              inr (
                candidate,
                family,
                exchange,
                Exchanged-congr sha256 others mint n candidate family input ran.found
                    (sym ran.left_eq ∙ ap (λ c. c.db) last) refl x,
                inr (is_reuse, refused),
              ),
            )
      ]
    where
      operation : ℕ → Tx Exchange
      operation = exchange_refresh_tx sha256 others mint candidate family input

      ended : Ended others operation db (in_tx others operation c)
      ended = in_tx-Ended others operation db c same

      in_tx_failed : Ended others operation db (raised e c') → Failed input db c'.db e
      in_tx_failed (n, inl kept) = (n, inl kept)
      in_tx_failed (n, inr (exchange, ran, lost)) = (
        n,
        inr (
          candidate,
          family,
          exchange,
          Exchanged-congr sha256 others mint n candidate family input ran.found (sym ran.left_eq)
              refl
              (exchange_refresh_tx-eq-returned sha256 others mint n candidate family input
                ran.before ran.result),
          inl lost,
        ),
      )

  -- If ExchangeRefreshToken reports an error, then the tables are as one of its attempts found them,
  -- or one attempt was committed whole: its answer was lost, or it revoked the family of a consumed
  -- token and the error is ErrInvalidGrant.
  pub exchange_refresh_token-Failed :
      (input : RefreshInput) (c c' : Conn) (e : Error)
      → exchange_refresh_token sha256 others mint input c ≡ raised e c'
      → Failed input c.db c'.db e
  unfolding exchange_refresh_token get_refresh_token_by_hash lock_refresh_token_family_by_id
  exchange_refresh_token-Failed input c c' e h =
      let bad = not (length input.token_hash == 32) || (input.client.id == 0) || (input.now == 0) in
      elim (>>=-eq-raised (raise_if bad invalid_grant) _ c h) [
        | inl q ↦ (0, inl (ap (λ c. c.db) (raise_if-eq-raised bad invalid_grant c q).0))
        | inr (_, c0, q0, h0) ↦
            let at0 = ap (λ c. c.db) (raise_if-eq-returned bad invalid_grant c q0).1 in
            elim (>>=-eq-raised (get_refresh_token_by_hash input.token_hash) _ c0 h0) [
              | inl q ↦ (0, inl (select-eq-raised _ c0 q ∙ at0))
              | inr (row, c1, q1, h1) ↦
                  let at1 = (select-eq-returned _ c0 q1).1 ∙ at0 in
                  elim (>>=-eq-raised (or_raise row invalid_grant) _ c1 h1) [
                    | inl q ↦ (
                      0,
                      inl (ap (λ c. c.db) (or_raise-eq-raised row invalid_grant c1 q).0 ∙ at1),
                    )
                    | inr (candidate, c2, q2, h2) ↦
                        family_read candidate c2
                          (ap (λ c. c.db) (or_raise-eq-returned row invalid_grant c1 q2).1 ∙ at1) h2
                  ]
            ]
      ]
    where
      family_read :
          (candidate : RefreshGeneration) (c2 : Conn)
          → c2.db ≡ c.db
          → (do
            family_row ← lock_refresh_token_family_by_id candidate.family_id
            family ← or_raise family_row invalid_grant
            exchange ← in_tx others (exchange_refresh_tx sha256 others mint candidate family input)
            report sha256 others mint exchange)
              c2
            ≡ raised e c'
          → Failed input c.db c'.db e
      family_read candidate c2 at2 h2 =
          elim (>>=-eq-raised (lock_refresh_token_family_by_id candidate.family_id) _ c2 h2) [
            | inl q ↦ (0, inl (select-eq-raised _ c2 q ∙ at2))
            | inr (family_row, c3, q3, h3) ↦
                let at3 = (select-eq-returned _ c2 q3).1 ∙ at2 in
                elim (>>=-eq-raised (or_raise family_row invalid_grant) _ c3 h3) [
                  | inl q ↦ (
                    0,
                    inl (ap (λ c. c.db) (or_raise-eq-raised family_row invalid_grant c3 q).0 ∙ at3),
                  )
                  | inr (family, c4, q4, h4) ↦
                      transaction-Failed input c.db candidate family c4
                        (ap (λ c. c.db) (or_raise-eq-returned family_row invalid_grant c3 q4).1
                          ∙ at3)
                        h4
                ]
          ]
