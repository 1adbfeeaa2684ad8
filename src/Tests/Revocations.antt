-- ===== src/Tests/Revocations.antt =====
-- A run of RevokeToken on a Refresh Token of the Client.
use one_issuer.Base.{ℕ, ◌≡◌, refl, []}
use one_issuer.Text.{Bytes, codes}
use one_issuer.Token.Secret.{hash_refresh_token}
use one_issuer.Store.{Db, Conn, returned}
use one_issuer.Store.Quiet.{quiet}
use one_issuer.Store.Transaction.{start_db}
use one_issuer.Store.Refresh.Invariant.{conn_of}
use one_issuer.Store.Revoke.{RevocationLookup, revoke_token}
use one_issuer.Store.Revoke.Owner.{OwnRevocation, revoke_token-OwnRevocation}
use one_issuer.Tests.Samples.{digest, alone, app, store, now, token_a}

abbrev lookup : RevocationLookup
lookup = record {
  client = app;
  access_jti_hash = [];
  refresh_token_hash = hash_refresh_token digest token_a;
  request_id = codes "req-3";
  now = now;
}

abbrev revoked_conn : Conn
revoked_conn = conn_of (revoke_token alone lookup (quiet store))

revokes : revoke_token alone lookup (quiet store) ≡ returned tt revoked_conn
unfolding revoke_token hash_refresh_token one_issuer.Audit.compact one_issuer.Audit.new_event
    one_issuer.Audit.valid_event one_issuer.Audit.valid_request_id one_issuer.Scope.difference
    one_issuer.Scope.intersection one_issuer.Scope.sorted_set one_issuer.Scope.supported
    one_issuer.Store.Locks.same_authenticated_client one_issuer.Store.Queries.find_client
    one_issuer.Store.Queries.get_access_token_by_jti_hash
    one_issuer.Store.Queries.get_refresh_token_by_hash
    one_issuer.Store.Queries.insert_protocol_audit one_issuer.Store.Queries.load_client_children
    one_issuer.Store.Queries.lock_access_token_by_id
    one_issuer.Store.Queries.lock_consent_grant_by_user_client
    one_issuer.Store.Queries.lock_oidc_client_by_id
    one_issuer.Store.Queries.lock_refresh_token_by_id
    one_issuer.Store.Queries.lock_refresh_token_family_by_id
    one_issuer.Store.Queries.lock_user_by_id one_issuer.Store.Queries.revoke_access_token
    one_issuer.Store.Queries.revoke_live_access_tokens_by_family
    one_issuer.Store.Queries.revoke_refresh_token_family one_issuer.Store.Revoke.lock_whole_client
    one_issuer.Store.Revoke.revoke_access_tx one_issuer.Store.Revoke.revoke_access_writes
    one_issuer.Store.Revoke.revoke_family_writes one_issuer.Store.Revoke.revoke_refresh_hash
    one_issuer.Store.Revoke.revoke_refresh_tx one_issuer.Store.begin_tx one_issuer.Store.commit
    one_issuer.Store.in_tx one_issuer.Store.in_tx_from one_issuer.Store.is_retryable
    one_issuer.Store.query one_issuer.Store.select one_issuer.Text.Ascending.keys
    one_issuer.Text.Base64.digit_of one_issuer.Text.Base64.encode one_issuer.Text.Sort.insert_string
    one_issuer.Text.Sort.sort_strings one_issuer.Text.drop one_issuer.Text.mem
    one_issuer.Text.str_eq one_issuer.Text.str_lt
revokes = refl

revoke_token-OwnRevocation_example :
    (n : ℕ) × OwnRevocation lookup (start_db alone store n) revoked_conn.db
revoke_token-OwnRevocation_example =
    revoke_token-OwnRevocation alone lookup (quiet store) revoked_conn revokes
