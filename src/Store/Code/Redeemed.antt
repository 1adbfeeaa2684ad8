-- ===== src/Store/Code/Redeemed.antt =====
-- The checks that an ExchangeAuthorizationCode transaction passed when it reported tokens.
use one_issuer.Base.{
  ℕ, ◌≡◌, sym, ap, ◌∙◌, Bool, true, false, not, ◌&&◌, some, List, ◌==◌, arith, find, ltb,
}
use one_issuer.Errors.{Result, ok, invalid_grant, token_invalid}
use one_issuer.Text.{Bytes, mem}
use one_issuer.Domain.{User, Client, Grant, is_active}
use one_issuer.Scope.{offline_access, subset}
use one_issuer.Token.{ExchangeInput, Authority, Minted}
use one_issuer.Store.{AuthorizationCode, Db, Conn, returned, raise_if, lift}
use one_issuer.Store.Laws.{>>=-elim, raise_if-eq-returned, lift-eq-returned}
use one_issuer.Store.Queries.{amend, code_is_live, code_consumed, find_client}
use one_issuer.Store.Locks.{
  same_authenticated_client, lock_active_user, lock_same_client, lock_grant,
}
use one_issuer.Store.Locks.Sound.{
  lock_active_user-eq-returned, lock_same_client-eq-returned, lock_grant-eq-returned,
}
use one_issuer.Store.Code.{
  CodeExchange, redeemed, canonical_code_scopes, code_grant_refused, code_mismatch, redeem_code,
}
use one_issuer.Store.Code.Branches.{redeem_writes-eq-returned}
use one_issuer.Store.Minted.{code_response, valid_minted_tokens}

module _ (sha256 : Bytes → Bytes) (others : ℕ → Db → Db)
    (mint : ℕ → Authority → Result Minted) where
  -- What redeem_code went through on these tables.
  pub record Redeemed (db left : Db) (code : AuthorizationCode) (input : ExchangeInput)
      (exchange : CodeExchange) : Type 0 where
    pub user : User
    pub client : Client
    pub grant : Grant
    pub scopes : List Bytes
    pub minted : Minted
    pub unexpired : ltb input.now code.expires_at ≡ true
    pub fits : code_mismatch sha256 code input ≡ false
    pub user_found : find (λ u. u.id == code.user_id) db.users ≡ some user
    pub user_active : is_active user.status ≡ true
    pub client_found : find_client code.client_id db ≡ some client
    pub client_same : same_authenticated_client client input.client ≡ true
    pub redirect : mem code.redirect_uri client.redirect_uris ≡ true
    pub scopes_eq : canonical_code_scopes code.scopes ≡ ok scopes
    pub in_client : subset scopes client.scopes ≡ true
    pub grant_found :
        find (λ g. g.user_id == code.user_id && g.client_id == code.client_id) db.grants
        ≡ some grant
    pub grant_kept : code_grant_refused code scopes client grant ≡ false
    pub minted_valid :
        valid_minted_tokens sha256 minted input.now (mem offline_access scopes) ≡ true
    pub codes_left :
        amend (code_is_live code.id input.now) (code_consumed input.now) db.codes ≡ left.codes
    pub answer : redeemed (code_response scopes minted) ≡ exchange

  pub redeem_code-eq-returned :
      (attempt : ℕ) (code : AuthorizationCode) (input : ExchangeInput) (c : Conn)
      {exchange : CodeExchange} {c' : Conn}
      → redeem_code sha256 others mint attempt code input c ≡ returned exchange c'
      → Redeemed c.db c'.db code input exchange
  unfolding redeem_code
  redeem_code-eq-returned attempt code input c h =
      let late = not (ltb input.now code.expires_at) in
      let mismatch = code_mismatch sha256 code input in
      >>=-elim (raise_if late invalid_grant) _ c h (λ _ c1 q1 h1.
        >>=-elim (raise_if mismatch invalid_grant) _ c1 h1 (λ _ c2 q2 h2.
          >>=-elim (lock_active_user code.user_id) _ c2 h2 (λ user c3 q3 h3.
            >>=-elim (lock_same_client code.client_id input.client) _ c3 h3 (λ client c4 q4 h4.
              let unregistered = not (mem code.redirect_uri client.redirect_uris) in
              >>=-elim (raise_if unregistered invalid_grant) _ c4 h4 (λ _ c5 q5 h5.
                >>=-elim (lift (canonical_code_scopes code.scopes)) _ c5 h5 (λ scopes c6 q6 h6.
                  let wide = not (subset scopes client.scopes) in
                  >>=-elim (raise_if wide invalid_grant) _ c6 h6 (λ _ c7 q7 h7.
                    let refused = code_grant_refused code scopes client in
                    >>=-elim (lock_grant code.user_id code.client_id refused) _ c7 h7
                      (λ grant c8 q8 h8. >>=-elim (lift _) _ c8 h8 (λ minted c9 q9 h9.
                        let invalid = not (
                          valid_minted_tokens sha256 minted input.now
                            (mem offline_access scopes)) in
                        >>=-elim (raise_if invalid token_invalid) _ c9 h9 (λ _ c10 q10 h10.
                          let (unexpired, s1) = raise_if-eq-returned late invalid_grant c q1 in
                          let (fits, s2) = raise_if-eq-returned mismatch invalid_grant c1 q2 in
                          let (user_found, user_active, s3) =
                            lock_active_user-eq-returned c2 code.user_id q3 in
                          let (client_found, client_same, s4) =
                            lock_same_client-eq-returned code.client_id input.client c3 q4 in
                          let (redirect, s5) =
                            raise_if-eq-returned unregistered invalid_grant c4 q5 in
                          let (scopes_eq, s6) =
                            lift-eq-returned (canonical_code_scopes code.scopes) c5 q6 in
                          let (in_client, s7) = raise_if-eq-returned wide invalid_grant c6 q7 in
                          let (grant_found, grant_kept, s8) =
                            lock_grant-eq-returned c7 code.user_id code.client_id
                              (code_grant_refused code scopes client) q8 in
                          let (_, s9) = lift-eq-returned _ c8 q9 in
                          let (valid, s10) = raise_if-eq-returned invalid token_invalid c9 q10 in
                          let (codes_left, answer) =
                            redeem_writes-eq-returned code grant scopes minted input c10 h10 in
                          let d2 = ap (λ c. c.db) s2 ∙ ap (λ c. c.db) s1 in
                          let d3 = s3 ∙ d2 in
                          let d7 =
                            ap (λ c. c.db) s7 ∙ ap (λ c. c.db) s6 ∙ ap (λ c. c.db) s5 ∙ s4 ∙ d3 in
                          let d10 = ap (λ c. c.db) s10 ∙ ap (λ c. c.db) s9 ∙ s8 ∙ d7 in
                          record {
                            user = user;
                            client = client;
                            grant = grant;
                            scopes = scopes;
                            minted = minted;
                            unexpired = flip unexpired;
                            fits = fits;
                            user_found =
                                ap (λ db. find (λ u. u.id == code.user_id) db.users) (sym d2)
                                ∙ user_found;
                            user_active = user_active;
                            client_found = ap (find_client code.client_id) (sym d3) ∙ client_found;
                            client_same = client_same;
                            redirect = flip redirect;
                            scopes_eq = scopes_eq;
                            in_client = flip in_client;
                            grant_found =
                                ap
                                  (λ db.
                                    find
                                      (λ g.
                                        g.user_id == code.user_id && g.client_id == code.client_id)
                                      db.grants)
                                  (sym d7)
                                ∙ grant_found;
                            grant_kept = grant_kept;
                            minted_valid = flip valid;
                            codes_left =
                                ap
                                  (λ db.
                                    amend (code_is_live code.id input.now) (code_consumed input.now)
                                      db.codes)
                                  (sym d10)
                                ∙ codes_left;
                            answer = answer;
                          }))))))))))
    where
      flip : {b : Bool} → not b ≡ false → b ≡ true
      flip {b} h = ground arith
