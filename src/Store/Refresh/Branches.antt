-- ===== src/Store/Refresh/Branches.antt =====
-- What an ExchangeRefreshToken transaction went through when it returned: a rotation or a reuse.
use one_issuer.Base.{
  ℕ, ◌≡◌, sym, ap, ◌∙◌, ◌⊎◌, inl, inr, true, not, none, some, List, arith, ltb, Option-cases,
}
use one_issuer.Errors.{Result, ok, invalid_grant, token_invalid}
use one_issuer.Text.{Bytes}
use one_issuer.Token.{
  RefreshFamily, RefreshGeneration, RefreshInput, RefreshAuthority, RefreshMinted,
}
use one_issuer.Token.Narrowing.{select_refresh_access_scopes}
use one_issuer.Store.{Db, Conn, returned, raise_if, lift}
use one_issuer.Store.Laws.{>>=-eq-returned, raise_if-eq-returned, lift-eq-returned}
use one_issuer.Store.Refresh.{
  Locked, Exchange, rotated, reuse_detected, refresh_response, reuse, lock_refresh,
  valid_refresh_minted, authority_of, issue, exchange_locked, exchange_refresh_tx,
}
use one_issuer.Store.Refresh.Authority.{LockedIn, lock_refresh-eq-returned}
use one_issuer.Store.Refresh.Writes.{Rotated, Revoked, rotate-eq-returned, reuse-eq-returned}

module _ (sha256 : Bytes → Bytes) (others : ℕ → Db → Db)
    (mint : ℕ → RefreshAuthority → Result RefreshMinted) where
  -- A rotation of the locked rows.
  pub record Issued (attempt : ℕ) (db left : Db) (l : Locked) (input : RefreshInput)
      (exchange : Exchange) : Type 0 where
    pub scopes : List Bytes
    pub minted : RefreshMinted
    pub unexpired : ltb input.now l.presented.expires_at ≡ true
    pub scopes_eq :
        select_refresh_access_scopes input.requested_scopes l.family.scopes l.grant.scopes
          l.client.scopes
        ≡ ok scopes
    pub minted_eq : mint attempt (authority_of sha256 others mint l scopes input) ≡ ok minted
    pub minted_valid : valid_refresh_minted sha256 minted l.presented l.family input.now ≡ true
    pub writes : Rotated db left l scopes minted input.now
    pub answer : rotated (refresh_response scopes minted) ≡ exchange

  pub issue-eq-returned :
      (attempt : ℕ) (l : Locked) (input : RefreshInput) (c : Conn) {exchange : Exchange} {c' : Conn}
      → issue sha256 others mint attempt l input c ≡ returned exchange c'
      → Issued attempt c.db c'.db l input exchange
  unfolding issue
  issue-eq-returned attempt l input c h =
      let late = not (ltb input.now l.presented.expires_at) in
      let (_, c1, q1, h1) = >>=-eq-returned (raise_if late invalid_grant) _ c h in
      let (scopes, c2, q2, h2) = >>=-eq-returned (lift _) _ c1 h1 in
      let (minted, c3, q3, h3) = >>=-eq-returned (lift _) _ c2 h2 in
      let invalid = not (valid_refresh_minted sha256 minted l.presented l.family input.now) in
      let (_, c4, q4, h4) = >>=-eq-returned (raise_if invalid token_invalid) _ c3 h3 in
      let (unexpired, same1) = raise_if-eq-returned late invalid_grant c q1 in
      let (scopes_eq, same2) = lift-eq-returned _ c1 q2 in
      let (minted_eq, same3) = lift-eq-returned _ c2 q3 in
      let (valid, same4) = raise_if-eq-returned invalid token_invalid c3 q4 in
      let (writes, answer) = rotate-eq-returned l scopes minted input c4 h4 in
      record {
        scopes = scopes;
        minted = minted;
        unexpired = ground arith;
        scopes_eq = scopes_eq;
        minted_eq = minted_eq;
        minted_valid = ground arith;
        writes = rw (← same1, ← same2, ← same3, ← same4) writes;
        answer = answer;
      }

  -- A transaction that returned: the rows it locked, and what it did with them.
  pub record Exchanged (attempt : ℕ) (db left : Db) (candidate : RefreshGeneration)
      (candidate_family : RefreshFamily) (input : RefreshInput) (exchange : Exchange) : Type 0 where
    pub l : Locked
    pub locked : LockedIn db candidate candidate_family input l
    pub did :
        ((l.presented.consumed_at ≡ none) × Issued attempt db left l input exchange)
        ⊎ ((at : ℕ) × (l.presented.consumed_at ≡ some at)
            × Revoked db left l input.now
            × (reuse_detected ≡ exchange))

  pub exchange_refresh_tx-eq-returned :
      (attempt : ℕ) (candidate : RefreshGeneration) (candidate_family : RefreshFamily)
      (input : RefreshInput) (c : Conn) {exchange : Exchange} {c' : Conn}
      → exchange_refresh_tx sha256 others mint candidate candidate_family input attempt c
        ≡ returned exchange c'
      → Exchanged attempt c.db c'.db candidate candidate_family input exchange
  unfolding exchange_refresh_tx
  exchange_refresh_tx-eq-returned attempt candidate candidate_family input c {exchange} {c'} h =
      let (l, c1, q, h1) = >>=-eq-returned (lock_refresh candidate candidate_family input) _ c h in
      let (locked, same) = lock_refresh-eq-returned candidate candidate_family input c q in
      record { l = l; locked = locked; did = branch l c1 h1 same }
    where
      branch :
          (l : Locked) (c1 : Conn)
          → exchange_locked sha256 others mint attempt input l c1 ≡ returned exchange c'
          → c1.db ≡ c.db
          → ((l.presented.consumed_at ≡ none) × Issued attempt c.db c'.db l input exchange)
            ⊎ ((at : ℕ) × (l.presented.consumed_at ≡ some at)
                × Revoked c.db c'.db l input.now
                × (reuse_detected ≡ exchange))
      branch l c1 h1 same = elim (Option-cases l.presented.consumed_at) [
        | inl e ↦
            let chosen : exchange_locked sha256 others mint attempt input l
                ≡ issue sha256 others mint attempt l input =
              ground arith in
            let issued : Issued attempt c1.db c'.db l input exchange =
              issue-eq-returned attempt l input c1 (sym (ap (λ m. m c1) chosen) ∙ h1) in
            inl (e, rw (← same) issued)
        | inr (at, e) ↦
            let chosen : exchange_locked sha256 others mint attempt input l ≡ reuse l input =
              ground arith in
            let (revoked, answer) =
              reuse-eq-returned l input c1 (sym (ap (λ m. m c1) chosen) ∙ h1) in
            let revoked' : Revoked c1.db c'.db l input.now = revoked in
            inr (at, e, rw (← same) revoked', answer)
      ]
