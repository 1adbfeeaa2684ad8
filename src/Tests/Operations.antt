-- ===== src/Tests/Operations.antt =====
-- A run of the service's Refresh on a stored Refresh Token.
use one_issuer.Base.{ℕ, suc, ◌≡◌, refl, false, []}
use one_issuer.Text.{Bytes, codes}
use one_issuer.Token.{Response}
use one_issuer.Store.{Conn, returned}
use one_issuer.Store.Quiet.{quiet}
use one_issuer.Store.Transaction.{start_db}
use one_issuer.Store.Refresh.Invariant.{conn_of}
use one_issuer.Store.Refresh.Successor.{IsSuccessor}
use one_issuer.Service.Mint.{Signer}
use one_issuer.Service.Operations.{bad_requested, refresh}
use one_issuer.Service.Operations.Authorized.{refresh-IsSuccessor}
use one_issuer.Tests.Samples.{digest, alone, store, request}
use one_issuer.Tests.Minting.{signer, settings, random, refresh_value}

abbrev service_signer : Signer
service_signer = record signer { sha256 = digest }

abbrev draws : ℕ → Bytes
draws n = random

abbrev answered : Response
answered = record {
  access_token = codes "a.b.c";
  token_type = codes "Bearer";
  expires_in = 600;
  id_token = [];
  refresh_token = refresh_value;
  scope = codes "openid profile";
}

abbrev after : Conn
after = conn_of (refresh service_signer settings alone draws request (quiet store))

refreshes :
    refresh service_signer settings alone draws request (quiet store) ≡ returned answered after
unfolding refresh one_issuer.Store.Refresh.exchange_refresh_token one_issuer.Audit.compact
    one_issuer.Audit.new_event one_issuer.Audit.valid_event one_issuer.Audit.valid_request_id
    one_issuer.Scope.canonical_scopes one_issuer.Scope.intersection one_issuer.Scope.sorted_set
    one_issuer.Scope.subset one_issuer.Scope.supported one_issuer.Store.Locks.lock_active_user
    one_issuer.Store.Locks.lock_family one_issuer.Store.Locks.lock_generation
    one_issuer.Store.Locks.lock_grant one_issuer.Store.Locks.lock_same_client
    one_issuer.Store.Locks.same_authenticated_client one_issuer.Store.Queries.consume_refresh_token
    one_issuer.Store.Queries.create_access_token one_issuer.Store.Queries.create_refresh_token
    one_issuer.Store.Queries.find_client one_issuer.Store.Queries.get_refresh_token_by_hash
    one_issuer.Store.Queries.insert_protocol_audit one_issuer.Store.Queries.load_client_children
    one_issuer.Store.Queries.lock_consent_grant_by_user_client
    one_issuer.Store.Queries.lock_oidc_client_by_id
    one_issuer.Store.Queries.lock_refresh_token_by_id
    one_issuer.Store.Queries.lock_refresh_token_family_by_id
    one_issuer.Store.Queries.lock_user_by_id
    one_issuer.Store.Queries.revoke_live_access_tokens_by_family
    one_issuer.Store.Queries.revoke_refresh_token_family
    one_issuer.Store.Refresh.exchange_refresh_tx one_issuer.Store.Refresh.issue
    one_issuer.Store.Refresh.lock_refresh one_issuer.Store.Refresh.reuse
    one_issuer.Store.Refresh.rotate one_issuer.Store.Refresh.valid_refresh_minted
    one_issuer.Store.begin_tx one_issuer.Store.commit one_issuer.Store.in_tx
    one_issuer.Store.in_tx_from one_issuer.Store.is_retryable one_issuer.Store.query
    one_issuer.Store.select one_issuer.Text.Ascending.keys one_issuer.Text.Base64.decode
    one_issuer.Text.Base64.digit_of one_issuer.Text.Base64.encode one_issuer.Text.Base64.value_of
    one_issuer.Text.Sort.contains one_issuer.Text.Sort.has_repeat one_issuer.Text.Sort.insert_string
    one_issuer.Text.Sort.search_strings one_issuer.Text.Sort.sort_strings one_issuer.Text.drop
    one_issuer.Text.has_prefix one_issuer.Text.join_space one_issuer.Text.mem one_issuer.Text.str_lt
    one_issuer.Text.strs_eq one_issuer.Token.Narrowing.canonical_refresh_scopes
    one_issuer.Token.Narrowing.effective_scopes
    one_issuer.Token.Narrowing.select_refresh_access_scopes
    one_issuer.Token.Secret.decodes_to_length one_issuer.Token.Secret.digest_presented_refresh_token
    one_issuer.Token.Secret.hash_refresh_token one_issuer.Token.Secret.well_formed
    one_issuer.Text.str_eq one_issuer.Service.Mint.mint_refresh one_issuer.Token.Secret.hash_jti
    one_issuer.Service.Mint.draw one_issuer.Service.Mint.mint_rotation
    one_issuer.Service.Mint.refresh_authority_refused one_issuer.Text.take
    one_issuer.Token.Lifetime.replacement_refresh_expiry
    one_issuer.Token.Secret.generate_refresh_token
    one_issuer.Service.Operations.refresh_input_refused one_issuer.Service.Claims.new_jti
refreshes = refl

refresh-IsSuccessor_example :
    (bad_requested request.requested_scopes ≡ false)
    × ((n : ℕ) × IsSuccessor digest (start_db alone store (suc n)) after.db request answered)
refresh-IsSuccessor_example =
    refresh-IsSuccessor service_signer settings alone draws request (quiet store) after answered
      refreshes
