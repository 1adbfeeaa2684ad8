-- ===== src/Store/Snapshot/Sound.antt =====
-- What a snapshot of a Refresh Token's rows says of the tables.
use one_issuer.Base.{ℕ, suc, ◌≡◌, sym, ap, subst, ◌∙◌, not, ◌&&◌, some, ◌==◌, find, length}
use one_issuer.Errors.{invalid_grant}
use one_issuer.Text.{Bytes, str_eq}
use one_issuer.Store.{Db, Conn, returned, raise_if, or_raise}
use one_issuer.Store.Laws.{
  >>=-elim, raise_if-eq-returned, or_raise-eq-returned, select-eq-returned, pure-eq-returned,
}
use one_issuer.Store.Transaction.{start_db, Ended, in_tx-Ended}
use one_issuer.Store.Queries.{
  get_refresh_token_by_hash, lock_refresh_token_family_by_id, lock_user_by_id,
  lock_consent_grant_by_user_client, find_client,
}
use one_issuer.Store.Revoke.{lock_whole_client}
use one_issuer.Store.Revoke.Steps.{user-Reads, family-Reads, client-Reads, grant-Reads}
use one_issuer.Store.Snapshot.{RefreshTokenAuthority, refresh_snapshot, get_refresh_token_authority}

-- The rows of a snapshot stand in the tables.
pub record IsSnapshot (db : Db) (hash : Bytes) (a : RefreshTokenAuthority) : Type 0 where
  pub generation_found : find (λ r. str_eq r.token_hash hash) db.generations ≡ some a.generation
  pub family_found : find (λ r. r.id == a.generation.family_id) db.families ≡ some a.family
  pub user_found : find (λ r. r.id == a.family.user_id) db.users ≡ some a.user
  pub client_found : find_client a.family.client_id db ≡ some a.client
  pub grant_found :
      find (λ g. g.user_id == a.family.user_id && g.client_id == a.family.client_id) db.grants
      ≡ some a.grant

refresh_snapshot-eq-returned :
    (hash : Bytes) (attempt : ℕ) (c c' : Conn) (a : RefreshTokenAuthority)
    → refresh_snapshot hash attempt c ≡ returned a c'
    → IsSnapshot c.db hash a × (c'.db ≡ c.db)
unfolding refresh_snapshot get_refresh_token_by_hash
refresh_snapshot-eq-returned hash attempt c c' a h =
    >>=-elim (get_refresh_token_by_hash hash) _ c h (λ generation_row c1 q1 h1.
      >>=-elim (or_raise generation_row invalid_grant) _ c1 h1 (λ generation c2 q2 h2.
        >>=-elim (lock_refresh_token_family_by_id generation.family_id) _ c2 h2
          (λ family_row c3 q3 h3.
            >>=-elim (or_raise family_row invalid_grant) _ c3 h3 (λ family c4 q4 h4.
              >>=-elim (lock_user_by_id family.user_id) _ c4 h4 (λ user_row c5 q5 h5.
                >>=-elim (or_raise user_row invalid_grant) _ c5 h5 (λ user c6 q6 h6.
                  >>=-elim (lock_whole_client family.client_id) _ c6 h6 (λ client_row c7 q7 h7.
                    >>=-elim (or_raise client_row invalid_grant) _ c7 h7 (λ client c8 q8 h8.
                      >>=-elim (lock_consent_grant_by_user_client family.user_id family.client_id) _
                        c8 h8
                        (λ grant_row c9 q9 h9.
                          >>=-elim (or_raise grant_row invalid_grant) _ c9 h9 (λ grant c10 q10 h10.
                            let other = not (grant.id == family.consent_grant_id) in
                            >>=-elim (raise_if other invalid_grant) _ c10 h10 (λ _ c11 q11 h11.
                              let (f1, s1) = select-eq-returned _ c q1 in
                              let (f2, s2) =
                                or_raise-eq-returned generation_row invalid_grant c1 q2 in
                              let (f3, s3) =
                                family-Reads generation.family_id c2 c3 family_row q3 in
                              let (f4, s4) = or_raise-eq-returned family_row invalid_grant c3 q4 in
                              let (f5, s5) = user-Reads family.user_id c4 c5 user_row q5 in
                              let (f6, s6) = or_raise-eq-returned user_row invalid_grant c5 q6 in
                              let (f7, s7) = client-Reads family.client_id c6 c7 client_row q7 in
                              let (f8, s8) = or_raise-eq-returned client_row invalid_grant c7 q8 in
                              let (f9, s9) =
                                grant-Reads family.user_id family.client_id c8 c9 grant_row q9 in
                              let (f10, s10) =
                                or_raise-eq-returned grant_row invalid_grant c9 q10 in
                              let (_, s11) = raise_if-eq-returned other invalid_grant c10 q11 in
                              let d2 = ap (λ c. c.db) s2 ∙ s1 in
                              let d4 = ap (λ c. c.db) s4 ∙ s3 ∙ d2 in
                              let d6 = ap (λ c. c.db) s6 ∙ s5 ∙ d4 in
                              let d8 = ap (λ c. c.db) s8 ∙ s7 ∙ d6 in
                              let d11 = ap (λ c. c.db) s11 ∙ ap (λ c. c.db) s10 ∙ s9 ∙ d8 in
                              pure-eq-returned (λ a c'. IsSnapshot c.db hash a × (c'.db ≡ c.db)) _
                                c11 h11
                                (
                                  record {
                                    generation_found = sym f1 ∙ f2;
                                    family_found =
                                        ap
                                          (λ db.
                                            find (λ r. r.id == generation.family_id) db.families)
                                          (sym d2)
                                        ∙ sym f3
                                        ∙ f4;
                                    user_found =
                                        ap (λ db. find (λ r. r.id == family.user_id) db.users)
                                          (sym d4)
                                        ∙ sym f5
                                        ∙ f6;
                                    client_found =
                                        ap (find_client family.client_id) (sym d6) ∙ sym f7 ∙ f8;
                                    grant_found =
                                        ap
                                          (λ db.
                                            find
                                              (λ g.
                                                g.user_id == family.user_id
                                                && g.client_id == family.client_id)
                                              db.grants)
                                          (sym d8)
                                        ∙ sym f9
                                        ∙ f10;
                                  },
                                  d11,
                                ))))))))))))

pub authority-IsSnapshot :
    (others : ℕ → Db → Db) (digest : Bytes) (c c' : Conn) (a : RefreshTokenAuthority)
    → get_refresh_token_authority others digest c ≡ returned a c'
    → (n : ℕ) × IsSnapshot (start_db others c.db (suc n)) digest a
unfolding get_refresh_token_authority
authority-IsSnapshot others digest c c' a h =
    let short = not (length digest == 32) in
    >>=-elim (raise_if short invalid_grant) _ c h (λ _ c1 q1 h1.
      let start = ap (λ c. c.db) (raise_if-eq-returned short invalid_grant c q1).1 in
      let (n, ran) =
        subst (λ o. Ended others (refresh_snapshot digest) c.db o) h1
          (in_tx-Ended others (refresh_snapshot digest) c.db c1 start) in
      (
        n,
        subst (λ db. IsSnapshot db digest a) ran.found
            (refresh_snapshot-eq-returned digest n ran.before ran.after a ran.result).0,
      ))
