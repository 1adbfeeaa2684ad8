-- ===== src/Store/Snapshot/Access/Rows.antt =====
-- What a snapshot of an Access Token's rows says of the tables.
use one_issuer.Base.{
  ℕ, suc, ◌≡◌, sym, ap, subst, ◌∙◌, not, ◌&&◌, ◌||◌, some, ◌==◌, find, length, ltb,
}
use one_issuer.Errors.{invalid_token}
use one_issuer.Text.{Bytes, str_eq}
use one_issuer.Domain.{is_active}
use one_issuer.Store.{Db, Conn, returned, raise_if, or_raise}
use one_issuer.Store.Laws.{
  >>=-elim, raise_if-eq-returned, or_raise-eq-returned, select-eq-returned, pure-eq-returned,
}
use one_issuer.Store.Transaction.{start_db, Ended, in_tx-Ended}
use one_issuer.Store.Queries.{
  lock_user_by_id, lock_consent_grant_by_user_client, find_client, get_access_token_by_jti_hash,
}
use one_issuer.Store.Revoke.{lock_whole_client}
use one_issuer.Store.Revoke.Steps.{user-Reads, client-Reads, grant-Reads}
use one_issuer.Store.Snapshot.Access.{
  AccessAuthority, family_of_access, access_snapshot, get_access_token_authority,
}

-- The rows of the snapshot stand in the tables.
pub record IsAccessSnapshot (db : Db) (hash : Bytes) (a : AccessAuthority) : Type 0 where
  pub metadata_found : find (λ r. str_eq r.jti_hash hash) db.accesses ≡ some a.metadata
  pub user_found : find (λ r. r.id == a.metadata.user_id) db.users ≡ some a.user
  pub client_found : find_client a.metadata.client_id db ≡ some a.client
  pub grant_found :
      find (λ g. g.user_id == a.metadata.user_id && g.client_id == a.metadata.client_id) db.grants
      ≡ some a.grant

access_snapshot-eq-returned :
    (hash : Bytes) (now attempt : ℕ) (c c' : Conn) (a : AccessAuthority)
    → access_snapshot hash now attempt c ≡ returned a c'
    → IsAccessSnapshot c.db hash a
unfolding access_snapshot get_access_token_by_jti_hash
access_snapshot-eq-returned hash now attempt c c' a h =
    >>=-elim (get_access_token_by_jti_hash hash) _ c h (λ row c1 q1 h1.
      >>=-elim (or_raise row invalid_token) _ c1 h1 (λ metadata c2 q2 h2.
        let stale = not (ltb now metadata.expires_at) || not (str_eq metadata.jti_hash hash) in
        >>=-elim (raise_if stale invalid_token) _ c2 h2 (λ _ c3 q3 h3.
          >>=-elim (lock_user_by_id metadata.user_id) _ c3 h3 (λ user_row c4 q4 h4.
            >>=-elim (or_raise user_row invalid_token) _ c4 h4 (λ user c5 q5 h5.
              let user_off = not (is_active user.status) in
              >>=-elim (raise_if user_off invalid_token) _ c5 h5 (λ _ c6 q6 h6.
                >>=-elim (lock_whole_client metadata.client_id) _ c6 h6 (λ client_row c7 q7 h7.
                  >>=-elim (or_raise client_row invalid_token) _ c7 h7 (λ client c8 q8 h8.
                    let client_off = not (is_active client.status) in
                    >>=-elim (raise_if client_off invalid_token) _ c8 h8 (λ _ c9 q9 h9.
                      >>=-elim
                        (lock_consent_grant_by_user_client metadata.user_id metadata.client_id) _ c9
                        h9
                        (λ grant_row c10 q10 h10.
                          >>=-elim (or_raise grant_row invalid_token) _ c10 h10
                            (λ grant c11 q11 h11.
                              let other = not (grant.id == metadata.consent_grant_id) in
                              >>=-elim (raise_if other invalid_token) _ c11 h11 (λ _ c12 q12 h12.
                                >>=-elim (family_of_access metadata.refresh_family_id) _ c12 h12
                                  (λ family c13 q13 h13.
                                    let (f1, s1) = select-eq-returned _ c q1 in
                                    let (f2, s2) = or_raise-eq-returned row invalid_token c1 q2 in
                                    let (_, s3) = raise_if-eq-returned stale invalid_token c2 q3 in
                                    let (f4, s4) = user-Reads metadata.user_id c3 c4 user_row q4 in
                                    let (f5, s5) =
                                      or_raise-eq-returned user_row invalid_token c4 q5 in
                                    let (_, s6) =
                                      raise_if-eq-returned user_off invalid_token c5 q6 in
                                    let (f7, s7) =
                                      client-Reads metadata.client_id c6 c7 client_row q7 in
                                    let (f8, s8) =
                                      or_raise-eq-returned client_row invalid_token c7 q8 in
                                    let (_, s9) =
                                      raise_if-eq-returned client_off invalid_token c8 q9 in
                                    let (f10, s10) =
                                      grant-Reads metadata.user_id metadata.client_id c9 c10
                                        grant_row q10 in
                                    let (f11, s11) =
                                      or_raise-eq-returned grant_row invalid_token c10 q11 in
                                    let d3 = ap (λ c. c.db) s3 ∙ ap (λ c. c.db) s2 ∙ s1 in
                                    let d6 = ap (λ c. c.db) s6 ∙ ap (λ c. c.db) s5 ∙ s4 ∙ d3 in
                                    let d9 = ap (λ c. c.db) s9 ∙ ap (λ c. c.db) s8 ∙ s7 ∙ d6 in
                                    pure-eq-returned (λ a c'. IsAccessSnapshot c.db hash a) _ c13
                                      h13
                                      (record {
                                        metadata_found = sym f1 ∙ f2;
                                        user_found =
                                            ap (λ db. find (λ r. r.id == metadata.user_id) db.users)
                                              (sym d3)
                                            ∙ sym f4
                                            ∙ f5;
                                        client_found =
                                            ap (find_client metadata.client_id) (sym d6)
                                            ∙ sym f7
                                            ∙ f8;
                                        grant_found =
                                            ap
                                              (λ db.
                                                find
                                                  (λ g.
                                                    g.user_id == metadata.user_id
                                                    && g.client_id == metadata.client_id)
                                                  db.grants)
                                              (sym d9)
                                            ∙ sym f10
                                            ∙ f11;
                                      }))))))))))))))

pub access_authority-IsAccessSnapshot :
    (others : ℕ → Db → Db) (hash : Bytes) (now : ℕ) (c c' : Conn) (a : AccessAuthority)
    → get_access_token_authority others hash now c ≡ returned a c'
    → (n : ℕ) × IsAccessSnapshot (start_db others c.db (suc n)) hash a
unfolding get_access_token_authority
access_authority-IsAccessSnapshot others hash now c c' a h =
    let bad = not (length hash == 32) || (now == 0) in
    >>=-elim (raise_if bad invalid_token) _ c h (λ _ c1 q1 h1.
      let start = ap (λ c. c.db) (raise_if-eq-returned bad invalid_token c q1).1 in
      let (n, ran) =
        subst (λ o. Ended others (access_snapshot hash now) c.db o) h1
          (in_tx-Ended others (access_snapshot hash now) c.db c1 start) in
      (
        n,
        subst (λ db. IsAccessSnapshot db hash a) ran.found
            (access_snapshot-eq-returned hash now n ran.before ran.after a ran.result),
      ))
