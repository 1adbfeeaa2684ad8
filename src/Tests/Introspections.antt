-- ===== src/Tests/Introspections.antt =====
-- A run of introspectRefresh on a live Refresh Token.
use one_issuer.Base.{ℕ, suc, ◌≡◌, refl, true, some, []}
use one_issuer.Errors.{ok}
use one_issuer.Text.{Bytes, codes}
use one_issuer.Token.Secret.{digest_presented_refresh_token}
use one_issuer.Store.{Db, Conn, returned}
use one_issuer.Store.Quiet.{quiet}
use one_issuer.Store.Transaction.{start_db}
use one_issuer.Introspection.{IntrospectionInput, IntrospectionResponse, introspect_refresh}
use one_issuer.Introspection.Agreement.{IsExchangeable, introspect_refresh-IsExchangeable}
use one_issuer.Tests.Samples.{digest, alone, app, store, store-IsRefreshStore, now, token_a}

abbrev question : IntrospectionInput
question = record { client = app; token = token_a; hint = []; now = now }

abbrev issuer : Bytes
issuer = codes "https://issuer.example.com"

abbrev answer : IntrospectionResponse
answer = record {
  active = true;
  token_type = [];
  client_id = codes "app";
  scope = codes "offline_access openid profile";
  subject = codes "alice";
  issuer = issuer;
  audience = [];
  issued_at = 864_399_600;
  expires_at = 864_489_600;
}

introspects :
    introspect_refresh digest issuer alone question (quiet store)
    ≡ returned (some answer) (quiet store)
unfolding introspect_refresh digest_presented_refresh_token one_issuer.Scope.canonical_scopes
    one_issuer.Scope.intersection one_issuer.Scope.sorted_set one_issuer.Scope.subset
    one_issuer.Scope.supported one_issuer.Store.Queries.find_client
    one_issuer.Store.Queries.get_refresh_token_by_hash one_issuer.Store.Queries.load_client_children
    one_issuer.Store.Queries.lock_consent_grant_by_user_client
    one_issuer.Store.Queries.lock_oidc_client_by_id
    one_issuer.Store.Queries.lock_refresh_token_family_by_id
    one_issuer.Store.Queries.lock_user_by_id one_issuer.Store.Revoke.lock_whole_client
    one_issuer.Store.Snapshot.get_refresh_token_authority one_issuer.Store.Snapshot.refresh_snapshot
    one_issuer.Store.begin_tx one_issuer.Store.commit one_issuer.Store.in_tx
    one_issuer.Store.in_tx_from one_issuer.Store.is_retryable one_issuer.Store.query
    one_issuer.Store.select one_issuer.Text.Ascending.keys one_issuer.Text.Base64.decode
    one_issuer.Text.Base64.digit_of one_issuer.Text.Base64.encode one_issuer.Text.Base64.value_of
    one_issuer.Text.Sort.contains one_issuer.Text.Sort.has_repeat one_issuer.Text.Sort.insert_string
    one_issuer.Text.Sort.search_strings one_issuer.Text.Sort.sort_strings one_issuer.Text.drop
    one_issuer.Text.has_prefix one_issuer.Text.join_space one_issuer.Text.mem one_issuer.Text.str_eq
    one_issuer.Text.str_lt one_issuer.Text.strs_eq
    one_issuer.Token.Narrowing.canonical_refresh_scopes one_issuer.Token.Narrowing.effective_scopes
    one_issuer.Token.Narrowing.select_refresh_access_scopes
    one_issuer.Token.Secret.decodes_to_length one_issuer.Token.Secret.hash_refresh_token
    one_issuer.Token.Secret.well_formed
introspects = refl

introspect_refresh-IsExchangeable_example :
    (n : ℕ) × (hash : Bytes) × (digest_presented_refresh_token digest token_a ≡ ok hash)
    × IsExchangeable (start_db alone store (suc n)) hash question answer
introspect_refresh-IsExchangeable_example =
    introspect_refresh-IsExchangeable digest issuer alone question (quiet store) (quiet store)
      answer (λ n db h. h) store-IsRefreshStore introspects refl
