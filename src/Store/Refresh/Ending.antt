-- ===== src/Store/Refresh/Ending.antt =====
-- How ExchangeRefreshToken ends: what it went through to return a response.
use one_issuer.Base.{ℕ, suc, ◌≡◌, sym, ap, ◌∙◌, not, ◌||◌, subst, some, ◌==◌, arith, length, find}
use one_issuer.Errors.{Result, invalid_grant}
use one_issuer.Text.{Bytes, str_eq}
use one_issuer.Token.{
  RefreshFamily, RefreshGeneration, RefreshInput, RefreshAuthority, RefreshMinted, Response,
}
use one_issuer.Store.{Db, Conn, returned, raise_if, or_raise, in_tx}
use one_issuer.Store.Laws.{
  >>=-eq-returned, raise_if-eq-returned, or_raise-eq-returned, select-eq-returned,
}
use one_issuer.Store.Transaction.{start_db, Ended, in_tx-Ended}
use one_issuer.Store.Queries.{get_refresh_token_by_hash, lock_refresh_token_family_by_id}
use one_issuer.Store.Refresh.{
  Exchange, rotated, reuse_detected, exchange_refresh_tx, report, exchange_refresh_token,
}
use one_issuer.Store.Refresh.Branches.{Exchanged, exchange_refresh_tx-eq-returned}

module _ (sha256 : Bytes → Bytes) (others : ℕ → Db → Db)
    (mint : ℕ → RefreshAuthority → Result RefreshMinted) where
  -- The committed attempt behind a response.
  pub record Succeeded (input : RefreshInput) (db left : Db) (response : Response) : Type 0 where
    pub candidate : RefreshGeneration
    pub candidate_found :
        find (λ r. str_eq r.token_hash input.token_hash) db.generations ≡ some candidate
    pub candidate_family : RefreshFamily
    pub family_found : find (λ r. r.id == candidate.family_id) db.families ≡ some candidate_family
    pub attempt : ℕ
    pub exchanged :
        Exchanged sha256 others mint attempt
          (start_db others db (suc attempt))
          left
          candidate
          candidate_family
          input
          (rotated response)

  report-eq-returned :
      (exchange : Exchange) (c : Conn) {response : Response} {c' : Conn}
      → report sha256 others mint exchange c ≡ returned response c'
      → (exchange ≡ rotated response) × (c ≡ c')
  unfolding report
  report-eq-returned (rotated r) c h = (ground arith, ground arith)
  report-eq-returned reuse_detected c h = cc

  pub Exchanged-congr :
      (n : ℕ) (candidate : RefreshGeneration) (family : RefreshFamily) (input : RefreshInput)
      {d1 d2 l1 l2 : Db} {e1 e2 : Exchange}
      → d1 ≡ d2
      → l1 ≡ l2
      → e1 ≡ e2
      → Exchanged sha256 others mint n d1 l1 candidate family input e1
      → Exchanged sha256 others mint n d2 l2 candidate family input e2
  Exchanged-congr n candidate family input d l e x = rw (← d, ← l, ← e) x

  pub exchange_refresh_token-Succeeded :
      (input : RefreshInput) (c : Conn) {response : Response} {c' : Conn}
      → exchange_refresh_token sha256 others mint input c ≡ returned response c'
      → Succeeded input c.db c'.db response
  unfolding exchange_refresh_token get_refresh_token_by_hash lock_refresh_token_family_by_id
  exchange_refresh_token-Succeeded input c h =
      let bad = not (length input.token_hash == 32) || (input.client.id == 0) || (input.now == 0) in
      let (_, c0, q0, h0) = >>=-eq-returned (raise_if bad invalid_grant) _ c h in
      let (row, c1, q1, h1) =
        >>=-eq-returned (get_refresh_token_by_hash input.token_hash) _ c0 h0 in
      let (candidate, c2, q2, h2) = >>=-eq-returned (or_raise row invalid_grant) _ c1 h1 in
      let (family_row, c3, q3, h3) =
        >>=-eq-returned (lock_refresh_token_family_by_id candidate.family_id) _ c2 h2 in
      let (family, c4, q4, h4) = >>=-eq-returned (or_raise family_row invalid_grant) _ c3 h3 in
      let operation = exchange_refresh_tx sha256 others mint candidate family input in
      let (exchange, c5, q5, h5) = >>=-eq-returned (in_tx others operation) _ c4 h4 in
      let (_, same0) = raise_if-eq-returned bad invalid_grant c q0 in
      let (found1, same1) = select-eq-returned _ c0 q1 in
      let (row1, same2) = or_raise-eq-returned row invalid_grant c1 q2 in
      let (found3, same3) = select-eq-returned _ c2 q3 in
      let (row3, same4) = or_raise-eq-returned family_row invalid_grant c3 q4 in
      let at1 = ap (λ c. c.db) same0 in
      let at2 = ap (λ c. c.db) same2 ∙ same1 ∙ at1 in
      let at4 = ap (λ c. c.db) same4 ∙ same3 ∙ at2 in
      let (n, ran) =
        subst (λ o. Ended others operation c.db o) q5 (in_tx-Ended others operation c.db c4 at4) in
      let (is_rotated, last) = report-eq-returned exchange c5 h5 in
      let done =
        exchange_refresh_tx-eq-returned sha256 others mint n candidate family input ran.before
          ran.result in
      record {
        candidate = candidate;
        candidate_found =
            ap (λ db. find (λ r. str_eq r.token_hash input.token_hash) db.generations) (sym at1)
            ∙ sym found1
            ∙ row1;
        candidate_family = family;
        family_found =
            ap (λ db. find (λ r. r.id == candidate.family_id) db.families) (sym at2)
            ∙ sym found3
            ∙ row3;
        attempt = n;
        exchanged =
            Exchanged-congr n candidate family input ran.found
              (sym ran.left_eq ∙ ap (λ c. c.db) last) is_rotated done;
      }
