-- ===== src/Store/Locks.antt =====
-- The checks under lock that internal/storage/postgres/token.go repeats in its transactions. Each
-- step locks a row and refuses it with ErrInvalidGrant.
use one_issuer.Base.{
  ℕ, zero, suc, ◌+◌, Bool, true, false, not, ◌&&◌, ◌||◌, Option, none, some, List, [], ◌∷◌, ltb,
  ◌==◌, if◌then◌else◌, is_some,
}
use one_issuer.Errors.{Error, invalid_grant}
use one_issuer.Text.{Bytes, str_eq}
use one_issuer.Domain.{User, Client, Grant, is_active, same_type, same_method, method_fits_type}
use one_issuer.Token.{RefreshFamily, RefreshGeneration}
use one_issuer.Store.{Tx, ◌>>=◌, ◌>>◌, pure, raise_if, or_raise}
use one_issuer.Store.Queries.{
  lock_user_by_id, lock_oidc_client_by_id, load_client_children, lock_consent_grant_by_user_client,
  lock_refresh_token_family_by_id, lock_refresh_token_by_id,
}
pub mod Sound
pub mod Complete

-- `sameAuthenticatedClient`
unfoldable pub same_authenticated_client : Client → Client → Bool
same_authenticated_client current authenticated =
    current.id == authenticated.id
    && str_eq current.client_id authenticated.client_id
    && is_active current.status
    && same_type current.type authenticated.type
    && same_method current.token_endpoint_auth_method authenticated.token_endpoint_auth_method
    && method_fits_type current

unfoldable pub lock_active_user : ℕ → Tx User
lock_active_user id = do
  row ← lock_user_by_id id
  user ← or_raise row invalid_grant
  raise_if (not (is_active user.status)) invalid_grant
  pure user

unfoldable pub lock_same_client : ℕ → Client → Tx Client
lock_same_client id authenticated = do
  row ← lock_oidc_client_by_id id
  bare ← or_raise row invalid_grant
  client ← load_client_children bare
  raise_if (not (same_authenticated_client client authenticated)) invalid_grant
  pure client

-- The Grant of a User and a Client, refused by a test of the row.
unfoldable pub lock_grant : ℕ → ℕ → (Grant → Bool) → Tx Grant
lock_grant user_id client_id refused = do
  row ← lock_consent_grant_by_user_client user_id client_id
  grant ← or_raise row invalid_grant
  raise_if (refused grant) invalid_grant
  pure grant

unfoldable pub lock_family : ℕ → (RefreshFamily → Bool) → Tx RefreshFamily
lock_family id refused = do
  row ← lock_refresh_token_family_by_id id
  family ← or_raise row invalid_grant
  raise_if (refused family) invalid_grant
  pure family

unfoldable pub lock_generation : ℕ → (RefreshGeneration → Bool) → Tx RefreshGeneration
lock_generation id refused = do
  row ← lock_refresh_token_by_id id
  presented ← or_raise row invalid_grant
  raise_if (refused presented) invalid_grant
  pure presented
