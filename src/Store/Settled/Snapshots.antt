-- ===== src/Store/Settled/Snapshots.antt =====
-- The snapshots of internal/storage/postgres/token.go end, on a connection without failures, in a
-- result or in the one error that stands for an unusable token.
use one_issuer.Base.{
  ℕ, ◌≡◌, refl, Bool, true, false, not, ◌||◌, ◌==◌, Option, none, some, [], arith, length, ltb,
}
use one_issuer.Errors.{Error, invalid_grant, invalid_token}
use one_issuer.Text.{Bytes, str_eq}
use one_issuer.Domain.{User, Client, Grant, is_active}
use one_issuer.Token.{RefreshFamily, RefreshGeneration, AccessMetadata}
use one_issuer.Store.{Db, Conn, select, is_retryable, in_tx}
use one_issuer.Store.Settled.{
  Settles, >>=-Settles, select-Settles, row_Settles, check_Settles, in_tx-Settles,
}
use one_issuer.Store.Queries.{
  get_refresh_token_by_hash, get_access_token_by_jti_hash, lock_refresh_token_family_by_id,
  lock_user_by_id, lock_oidc_client_by_id, load_client_children, lock_consent_grant_by_user_client,
}
use one_issuer.Store.Revoke.{whole_client, lock_whole_client}
use one_issuer.Store.Snapshot.{RefreshTokenAuthority, refresh_snapshot, get_refresh_token_authority}
use one_issuer.Store.Snapshot.Access.{
  AccessAuthority, some_family, family_of_access, access_snapshot, get_access_token_authority,
}
use one_issuer.Introspection.{is_invalid_grant}

module _ (expected : Error → Bool) where
  children-Settles :
      (bare : Client) (c : Conn) → c.faults ≡ [] → Settles expected (load_client_children bare c)
  unfolding load_client_children
  children-Settles bare c h =
      >>=-Settles expected (select _) _ c (select-Settles expected _ c h) (λ _ c1 h1.
        >>=-Settles expected (select _) _ c1 (select-Settles expected _ c1 h1) (λ _ c2 h2.
          >>=-Settles expected (select _) _ c2 (select-Settles expected _ c2 h2) (λ _ c3 h3. h3)))

  client-Settles : (id : ℕ) (c : Conn) → c.faults ≡ [] → Settles expected (lock_whole_client id c)
  unfolding lock_whole_client lock_oidc_client_by_id
  client-Settles id c h =
      >>=-Settles expected (lock_oidc_client_by_id id) _ c (select-Settles expected _ c h) whole
    where
      whole :
          (row : Option Client) (c1 : Conn)
          → c1.faults ≡ []
          → Settles expected (whole_client row c1)
      whole none c1 h1 = h1
      whole (some bare) c1 h1 =
          >>=-Settles expected (load_client_children bare) _ c1 (children-Settles bare c1 h1)
            (λ _ c2 h2. h2)

final_grant : (e : Error) → is_invalid_grant e ≡ true → is_retryable e ≡ false
unfolding is_retryable
final_grant e h = ground arith

refresh_snapshot-Settles :
    (hash : Bytes) (attempt : ℕ) (c : Conn)
    → c.faults ≡ []
    → Settles is_invalid_grant (refresh_snapshot hash attempt c)
unfolding refresh_snapshot get_refresh_token_by_hash lock_refresh_token_family_by_id lock_user_by_id
    lock_consent_grant_by_user_client
refresh_snapshot-Settles hash attempt c h =
    row_Settles is_invalid_grant (get_refresh_token_by_hash hash) invalid_grant _ c refl
      (select-Settles is_invalid_grant _ c h)
      (λ (generation : RefreshGeneration) c1 h1.
        row_Settles is_invalid_grant (lock_refresh_token_family_by_id generation.family_id)
          invalid_grant _ c1 refl (select-Settles is_invalid_grant _ c1 h1)
          (λ (family : RefreshFamily) c2 h2.
            row_Settles is_invalid_grant (lock_user_by_id family.user_id) invalid_grant _ c2 refl
              (select-Settles is_invalid_grant _ c2 h2)
              (λ (user : User) c3 h3.
                row_Settles is_invalid_grant (lock_whole_client family.client_id) invalid_grant _ c3
                  refl (client-Settles is_invalid_grant family.client_id c3 h3)
                  (λ (client : Client) c4 h4.
                    row_Settles is_invalid_grant
                      (lock_consent_grant_by_user_client family.user_id family.client_id)
                      invalid_grant _ c4 refl (select-Settles is_invalid_grant _ c4 h4)
                      (λ (grant : Grant) c5 h5.
                        check_Settles is_invalid_grant {B = RefreshTokenAuthority}
                          (not (grant.id == family.consent_grant_id)) invalid_grant _ c5 refl h5
                          (λ c6 h6. h6))))))

pub get_refresh_token_authority-Settles :
    (others : ℕ → Db → Db) (hash : Bytes) (c : Conn)
    → c.faults ≡ []
    → Settles is_invalid_grant (get_refresh_token_authority others hash c)
unfolding get_refresh_token_authority
get_refresh_token_authority-Settles others hash c h =
    check_Settles is_invalid_grant (not (length hash == 32)) invalid_grant
      (in_tx others (refresh_snapshot hash)) c refl h
      (λ c1 h1.
        in_tx-Settles is_invalid_grant others (refresh_snapshot hash) c1 h1 final_grant
          (refresh_snapshot-Settles hash 0))

-- `ErrInvalidToken`
abbrev pub is_token_error : Error → Bool
is_token_error invalid_token = true
is_token_error _ = false

final_token : (e : Error) → is_token_error e ≡ true → is_retryable e ≡ false
unfolding is_retryable
final_token e h = ground arith

family-Settles :
    (id : Option ℕ) (c : Conn) → c.faults ≡ [] → Settles is_token_error (family_of_access id c)
unfolding family_of_access lock_refresh_token_family_by_id
family-Settles none c h = h
family-Settles (some id) c h =
    >>=-Settles is_token_error (lock_refresh_token_family_by_id id) _ c
      (select-Settles is_token_error _ c h) found
  where
    found :
        (row : Option RefreshFamily) (c1 : Conn)
        → c1.faults ≡ []
        → Settles is_token_error (some_family row c1)
    found none c1 h1 = (refl, h1)
    found (some family) c1 h1 = h1

access_snapshot-Settles :
    (hash : Bytes) (now attempt : ℕ) (c : Conn)
    → c.faults ≡ []
    → Settles is_token_error (access_snapshot hash now attempt c)
unfolding access_snapshot get_access_token_by_jti_hash lock_user_by_id
    lock_consent_grant_by_user_client
access_snapshot-Settles hash now attempt c h =
    row_Settles is_token_error (get_access_token_by_jti_hash hash) invalid_token _ c refl
      (select-Settles is_token_error _ c h)
      (λ (metadata : AccessMetadata) c1 h1.
        check_Settles is_token_error {B = AccessAuthority}
          (not (ltb now metadata.expires_at) || not (str_eq metadata.jti_hash hash)) invalid_token _
          c1 refl h1
          (λ c2 h2.
            row_Settles is_token_error (lock_user_by_id metadata.user_id) invalid_token _ c2 refl
              (select-Settles is_token_error _ c2 h2)
              (λ (user : User) c3 h3.
                check_Settles is_token_error {B = AccessAuthority} (not (is_active user.status))
                  invalid_token _ c3 refl h3
                  (λ c4 h4.
                    row_Settles is_token_error (lock_whole_client metadata.client_id) invalid_token
                      _ c4 refl (client-Settles is_token_error metadata.client_id c4 h4)
                      (λ (client : Client) c5 h5.
                        check_Settles is_token_error {B = AccessAuthority}
                          (not (is_active client.status)) invalid_token _ c5 refl h5
                          (λ c6 h6.
                            row_Settles is_token_error
                              (lock_consent_grant_by_user_client metadata.user_id
                                metadata.client_id)
                              invalid_token _ c6 refl (select-Settles is_token_error _ c6 h6)
                              (λ (grant : Grant) c7 h7.
                                check_Settles is_token_error {B = AccessAuthority}
                                  (not (grant.id == metadata.consent_grant_id)) invalid_token _ c7
                                  refl h7
                                  (λ c8 h8.
                                    >>=-Settles is_token_error
                                      (family_of_access metadata.refresh_family_id) _ c8
                                      (family-Settles metadata.refresh_family_id c8 h8)
                                      (λ _ c9 h9. h9)))))))))

pub get_access_token_authority-Settles :
    (others : ℕ → Db → Db) (hash : Bytes) (now : ℕ) (c : Conn)
    → c.faults ≡ []
    → Settles is_token_error (get_access_token_authority others hash now c)
unfolding get_access_token_authority
get_access_token_authority-Settles others hash now c h =
    check_Settles is_token_error (not (length hash == 32) || (now == 0)) invalid_token
      (in_tx others (access_snapshot hash now)) c refl h
      (λ c1 h1.
        in_tx-Settles is_token_error others (access_snapshot hash now) c1 h1 final_token
          (access_snapshot-Settles hash now 0))
