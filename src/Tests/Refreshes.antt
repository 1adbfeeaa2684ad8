-- ===== src/Tests/Refreshes.antt =====
-- Runs of ExchangeRefreshToken: a rotation, a replay, and a call that finds the database failing.
use one_issuer.Base.{ℕ, suc, ◌≡◌, ◌≢◌, refl, false, none, some, [], ◌∷◌, any}
use one_issuer.Errors.{invalid_grant, query_error, connection_lost}
use one_issuer.Text.{Bytes, codes, str_eq}
use one_issuer.Token.{Response, RefreshGeneration, RefreshFamily}
use one_issuer.Store.{Db, Conn, Outcome, returned, raised}
use one_issuer.Store.Quiet.{quiet}
use one_issuer.Store.Transaction.{start_db}
use one_issuer.Store.Queries.{is_unrevoked, is_live_access}
use one_issuer.Store.Refresh.{Locked, exchange_refresh_token}
use one_issuer.Store.Refresh.Authority.{LockedIn}
use one_issuer.Store.Refresh.Authorized.{IsAuthorized, exchange_refresh_token-IsAuthorized}
use one_issuer.Store.Refresh.Failing.{Failed, exchange_refresh_token-Failed}
use one_issuer.Store.Refresh.Invariant.{
  conn_of, IsRefreshStore, exchange_refresh_token-IsRefreshStore,
}
use one_issuer.Store.Refresh.Replay.{exchange_refresh_token_once}
use one_issuer.Store.Refresh.Reuse.{Found, exchange_refresh_token-reuse}
use one_issuer.Store.Refresh.Dead.{IsDead, revoked_family_never_exchanges}
use one_issuer.Tests.Samples.{
  digest, alone, alice, app, consented, family, first_generation, store, token_b, request, mint,
  now, store-IsRefreshStore,
}
use one_issuer.Audit.{valid_request_id}

abbrev response : Response
response = record {
  access_token = codes "jwt";
  token_type = codes "Bearer";
  expires_in = 600;
  id_token = [];
  refresh_token = token_b;
  scope = codes "openid profile";
}

abbrev rotated : Conn
rotated = conn_of (exchange_refresh_token digest alone mint request (quiet store))

rotates : exchange_refresh_token digest alone mint request (quiet store) ≡ returned response rotated
unfolding exchange_refresh_token one_issuer.Audit.compact one_issuer.Audit.new_event
    one_issuer.Audit.valid_event one_issuer.Audit.valid_request_id one_issuer.Scope.canonical_scopes
    one_issuer.Scope.intersection one_issuer.Scope.sorted_set one_issuer.Scope.subset
    one_issuer.Scope.supported one_issuer.Store.Locks.lock_active_user
    one_issuer.Store.Locks.lock_family one_issuer.Store.Locks.lock_generation
    one_issuer.Store.Locks.lock_grant one_issuer.Store.Locks.lock_same_client
    one_issuer.Store.Locks.same_authenticated_client one_issuer.Store.Queries.consume_refresh_token
    one_issuer.Store.Queries.create_access_token one_issuer.Store.Queries.create_refresh_token
    one_issuer.Store.Queries.find_client one_issuer.Store.Queries.get_refresh_token_by_hash
    one_issuer.Store.Queries.insert_protocol_audit one_issuer.Store.Queries.load_client_children
    one_issuer.Store.Queries.lock_consent_grant_by_user_client
    one_issuer.Store.Queries.lock_oidc_client_by_id
    one_issuer.Store.Queries.lock_refresh_token_by_id
    one_issuer.Store.Queries.lock_refresh_token_family_by_id
    one_issuer.Store.Queries.lock_user_by_id
    one_issuer.Store.Queries.revoke_live_access_tokens_by_family
    one_issuer.Store.Queries.revoke_refresh_token_family
    one_issuer.Store.Refresh.exchange_refresh_tx one_issuer.Store.Refresh.issue
    one_issuer.Store.Refresh.lock_refresh one_issuer.Store.Refresh.reuse
    one_issuer.Store.Refresh.rotate one_issuer.Store.Refresh.valid_refresh_minted
    one_issuer.Store.begin_tx one_issuer.Store.commit one_issuer.Store.in_tx
    one_issuer.Store.in_tx_from one_issuer.Store.is_retryable one_issuer.Store.query
    one_issuer.Store.select one_issuer.Text.Ascending.keys one_issuer.Text.Base64.decode
    one_issuer.Text.Base64.digit_of one_issuer.Text.Base64.encode one_issuer.Text.Base64.value_of
    one_issuer.Text.Sort.contains one_issuer.Text.Sort.has_repeat one_issuer.Text.Sort.insert_string
    one_issuer.Text.Sort.search_strings one_issuer.Text.Sort.sort_strings one_issuer.Text.drop
    one_issuer.Text.has_prefix one_issuer.Text.join_space one_issuer.Text.mem one_issuer.Text.str_lt
    one_issuer.Text.strs_eq one_issuer.Token.Narrowing.canonical_refresh_scopes
    one_issuer.Token.Narrowing.effective_scopes
    one_issuer.Token.Narrowing.select_refresh_access_scopes
    one_issuer.Token.Secret.decodes_to_length one_issuer.Token.Secret.digest_presented_refresh_token
    one_issuer.Token.Secret.hash_refresh_token one_issuer.Token.Secret.well_formed str_eq
rotates = refl

exchange_refresh_token-IsAuthorized_example :
    (n : ℕ) × IsAuthorized (start_db alone store (suc n)) request response
exchange_refresh_token-IsAuthorized_example =
    exchange_refresh_token-IsAuthorized digest alone mint request (quiet store) rotated response
      rotates

exchange_refresh_token-IsRefreshStore_example : IsRefreshStore rotated.db
exchange_refresh_token-IsRefreshStore_example =
    exchange_refresh_token-IsRefreshStore digest alone mint (λ n db h. h) request (quiet store)
      store-IsRefreshStore

exchange_refresh_token_once_example :
    exchange_refresh_token digest alone mint request rotated ≢ returned response rotated
exchange_refresh_token_once_example =
    exchange_refresh_token_once digest alone mint request request (quiet store) rotated rotated
      rotated response response (λ n db h. h) (λ n db h. h) store-IsRefreshStore refl rotates
      (λ h. h)

-- The connection is lost at the second query.
abbrev failing : Conn
failing = record { db = store; faults = none ∷ some connection_lost ∷ [] }

fails :
    exchange_refresh_token digest alone mint request failing
    ≡ raised (query_error connection_lost) (quiet store)
unfolding exchange_refresh_token one_issuer.Store.Locks.same_authenticated_client
    one_issuer.Store.Queries.find_client one_issuer.Store.Queries.get_refresh_token_by_hash
    one_issuer.Store.Queries.lock_refresh_token_family_by_id one_issuer.Store.select
    one_issuer.Text.Base64.digit_of one_issuer.Text.Base64.encode one_issuer.Text.drop
    one_issuer.Token.Secret.hash_refresh_token str_eq
fails = refl

exchange_refresh_token-Failed_example :
    Failed digest alone mint request store store (query_error connection_lost)
exchange_refresh_token-Failed_example =
    exchange_refresh_token-Failed digest alone mint request failing (quiet store)
      (query_error connection_lost) fails

abbrev used_generation : RefreshGeneration
used_generation = record first_generation { consumed_at = some now }

abbrev used_store : Db
used_store = record store { generations = used_generation ∷ [] }

abbrev used_rows : Locked
used_rows = record {
  user = alice;
  client = app;
  grant = consented;
  family = family;
  presented = used_generation;
}

used-Found : Found digest alone mint used_store used_generation family request
unfolding str_eq one_issuer.Store.Locks.same_authenticated_client
    one_issuer.Store.Queries.find_client one_issuer.Text.Base64.digit_of
    one_issuer.Text.Base64.encode one_issuer.Text.drop one_issuer.Token.Secret.hash_refresh_token
used-Found = record {
  size = refl;
  client_set = refl;
  now_set = refl;
  candidate_found = refl;
  family_found = refl;
}

used-LockedIn : LockedIn used_store used_generation family request used_rows
unfolding str_eq one_issuer.Store.Locks.same_authenticated_client
    one_issuer.Store.Queries.find_client one_issuer.Text.Base64.digit_of
    one_issuer.Text.Base64.encode one_issuer.Text.drop one_issuer.Token.Secret.hash_refresh_token
used-LockedIn = record {
  user_found = refl;
  user_active = refl;
  client_found = refl;
  client_same = refl;
  grant_found = refl;
  grant_kept = refl;
  family_found = refl;
  family_kept = refl;
  presented_found = refl;
  presented_kept = refl;
}

exchange_refresh_token-reuse_example :
    (left : Db) × (exchange_refresh_token digest alone mint request (quiet used_store)
      ≡ raised invalid_grant (quiet left))
    × (any (is_unrevoked 4) left.families ≡ false)
    × (any (is_live_access 4 now) left.accesses ≡ false)
    × (left.generations ≡ used_store.generations)
    × (left.users ≡ used_store.users)
    × (left.clients ≡ used_store.clients)
    × (left.grants ≡ used_store.grants)
unfolding valid_request_id one_issuer.Text.Base64.digit_of one_issuer.Text.Base64.encode
    one_issuer.Text.drop one_issuer.Token.Secret.hash_refresh_token str_eq
exchange_refresh_token-reuse_example =
    exchange_refresh_token-reuse digest alone mint used_store used_generation family request
      used_rows now used-Found used-LockedIn refl refl refl refl refl

abbrev revoked_store : Db
revoked_store = record store {
  families = record family { revoked_at = some now; revoke_reason = codes "reuse" } ∷ [];
}

revoked_store-IsDead : IsDead 4 request.token_hash revoked_store
unfolding str_eq one_issuer.Text.Base64.digit_of one_issuer.Text.Base64.encode one_issuer.Text.drop
    one_issuer.Token.Secret.hash_refresh_token
revoked_store-IsDead = record { revoked = refl; nowhere_else = refl }

revoked_family_never_exchanges_example :
    exchange_refresh_token digest alone mint request (quiet revoked_store)
    ≢ returned response (quiet revoked_store)
revoked_family_never_exchanges_example =
    revoked_family_never_exchanges digest alone mint 4 request (quiet revoked_store)
      (quiet revoked_store) response (λ n db h. h) revoked_store-IsDead
