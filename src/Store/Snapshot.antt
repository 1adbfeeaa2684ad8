-- ===== src/Store/Snapshot.antt =====
-- GetRefreshTokenAuthority of internal/storage/postgres/token.go: one consistent snapshot of a
-- Refresh Token's rows, in a read-only transaction.
pub mod Sound
pub mod Access
use one_issuer.Base.{ℕ, Bool, not, Option, none, some, length, ◌==◌}
use one_issuer.Errors.{Error, invalid_grant}
use one_issuer.Text.{Bytes}
use one_issuer.Domain.{User, Client, Grant}
use one_issuer.Token.{RefreshFamily, RefreshGeneration}
use one_issuer.Store.{
  Db, Conn, Outcome, returned, raised, Tx, ◌>>=◌, ◌>>◌, pure, raise_if, or_raise, in_tx,
}
use one_issuer.Store.Queries.{
  get_refresh_token_by_hash, lock_refresh_token_family_by_id, lock_user_by_id,
  lock_consent_grant_by_user_client,
}
use one_issuer.Store.Revoke.{lock_whole_client}

-- `token.RefreshTokenAuthority`
pub record RefreshTokenAuthority : Type 0 where
  pub generation : RefreshGeneration
  pub family : RefreshFamily
  pub grant : Grant
  pub user : User
  pub client : Client

unfoldable pub refresh_snapshot : Bytes → ℕ → Tx RefreshTokenAuthority
refresh_snapshot hash attempt = do
  generation_row ← get_refresh_token_by_hash hash
  generation ← or_raise generation_row invalid_grant
  family_row ← lock_refresh_token_family_by_id generation.family_id
  family ← or_raise family_row invalid_grant
  user_row ← lock_user_by_id family.user_id
  user ← or_raise user_row invalid_grant
  client_row ← lock_whole_client family.client_id
  client ← or_raise client_row invalid_grant
  grant_row ← lock_consent_grant_by_user_client family.user_id family.client_id
  grant ← or_raise grant_row invalid_grant
  raise_if (not (grant.id == family.consent_grant_id)) invalid_grant
  pure (record {
    generation = generation;
    family = family;
    grant = grant;
    user = user;
    client = client;
  })

unfoldable pub get_refresh_token_authority : (ℕ → Db → Db) → Bytes → Tx RefreshTokenAuthority
get_refresh_token_authority others hash = do
  raise_if (not (length hash == 32)) invalid_grant
  in_tx others (refresh_snapshot hash)
