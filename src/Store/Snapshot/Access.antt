-- ===== src/Store/Snapshot/Access.antt =====
-- GetAccessTokenAuthority of internal/storage/postgres/token.go: one consistent snapshot of an Access
-- Token's rows, in a read-only transaction.
use one_issuer.Base.{
  ℕ, Bool, true, false, not, ◌&&◌, ◌||◌, Option, none, some, List, length, ltb, ◌==◌, if◌then◌else◌,
}
use one_issuer.Errors.{Error, invalid_token}
use one_issuer.Text.{Bytes, str_eq}
use one_issuer.Domain.{User, Client, Grant, is_active}
use one_issuer.Token.{RefreshFamily, AccessMetadata}
use one_issuer.Store.{
  Db, Conn, Outcome, returned, raised, Tx, ◌>>=◌, ◌>>◌, pure, raise_if, or_raise, in_tx,
}
use one_issuer.Store.Queries.{
  lock_refresh_token_family_by_id, lock_user_by_id, lock_consent_grant_by_user_client,
  get_access_token_by_jti_hash,
}
use one_issuer.Store.Revoke.{lock_whole_client}
pub mod Rows

-- `token.AccessAuthority`
pub record AccessAuthority : Type 0 where
  pub metadata : AccessMetadata
  pub grant : Grant
  pub user : User
  pub client : Client
  pub family : Option RefreshFamily

abbrev pub some_family : Option RefreshFamily → Tx (Option RefreshFamily)
some_family none c = raised invalid_token c
some_family (some family) c = returned (some family) c

-- The family of a token that has one.
unfoldable pub family_of_access : Option ℕ → Tx (Option RefreshFamily)
family_of_access none = pure none
family_of_access (some id) = lock_refresh_token_family_by_id id >>= some_family

unfoldable pub access_snapshot : Bytes → ℕ → ℕ → Tx AccessAuthority
access_snapshot hash now attempt = do
  row ← get_access_token_by_jti_hash hash
  metadata ← or_raise row invalid_token
  raise_if (not (ltb now metadata.expires_at) || not (str_eq metadata.jti_hash hash)) invalid_token
  user_row ← lock_user_by_id metadata.user_id
  user ← or_raise user_row invalid_token
  raise_if (not (is_active user.status)) invalid_token
  client_row ← lock_whole_client metadata.client_id
  client ← or_raise client_row invalid_token
  raise_if (not (is_active client.status)) invalid_token
  grant_row ← lock_consent_grant_by_user_client metadata.user_id metadata.client_id
  grant ← or_raise grant_row invalid_token
  raise_if (not (grant.id == metadata.consent_grant_id)) invalid_token
  family ← family_of_access metadata.refresh_family_id
  pure
      (record { metadata = metadata; grant = grant; user = user; client = client; family = family })

unfoldable pub get_access_token_authority : (ℕ → Db → Db) → Bytes → ℕ → Tx AccessAuthority
get_access_token_authority others hash now = do
  raise_if (not (length hash == 32) || (now == 0)) invalid_token
  in_tx others (access_snapshot hash now)
