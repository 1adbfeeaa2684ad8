-- ===== src/Tests/Codes.antt =====
-- Runs of ExchangeAuthorizationCode: an exchange with an initial Refresh Token, and a replay.
use one_issuer.Base.{ℕ, suc, ◌+◌, ◌*◌, ◌≡◌, ◌≢◌, refl, true, none, some, [], ◌∷◌, any, find}
use one_issuer.Errors.{Result, ok, invalid_grant}
use one_issuer.Text.{Bytes, codes, str_eq}
use one_issuer.Text.Base64.{encode}
use one_issuer.Token.{ExchangeInput, Authority, Minted, InitialRefresh, Response, minute, day}
use one_issuer.Token.Secret.{hash_code, hash_refresh_token, new_code}
use one_issuer.Store.{AuthorizationCode, Db, Conn, returned, raised}
use one_issuer.Store.Quiet.{quiet}
use one_issuer.Store.Transaction.{start_db}
use one_issuer.Store.Queries.{is_of_kind}
use one_issuer.Store.Refresh.Invariant.{conn_of}
use one_issuer.Store.Code.{exchange_authorization_code}
use one_issuer.Store.Code.Once.{
  IsCodeAuthorized, exchange_authorization_code-IsCodeAuthorized, exchange_authorization_code_once,
}
use one_issuer.Store.Code.Replay.{WellPosed, exchange_authorization_code-replay}
use one_issuer.Tests.Samples.{digest, repeat, alone, app, consented, store, now, token_a}
use one_issuer.Audit.{valid_request_id}

abbrev verifier : Bytes
verifier = repeat 43 b'a'

abbrev issued : AuthorizationCode
issued = record {
  id = 9;
  code_hash = hash_code digest (new_code (repeat 32 3));
  auth_transaction_id = 10;
  consent_grant_id = 3;
  user_id = 1;
  client_id = 2;
  redirect_uri = codes "https://app.example.com/callback";
  scopes = consented.scopes;
  pkce_challenge = encode (digest verifier);
  pkce_method = codes "S256";
  nonce_value = some (codes "n");
  auth_time = now;
  created_at = now;
  expires_at = now + minute;
  consumed_at = none;
  consent_grant_version = 1;
  origin_session_id = some 7;
  session_binding_id = some 8;
}

abbrev code_store : Db
code_store = record store { codes = issued ∷ []; families = []; generations = [] }

abbrev redemption : ExchangeInput
redemption = record {
  code_hash = hash_code digest (new_code (repeat 32 3));
  client = app;
  redirect_uri = codes "https://app.example.com/callback";
  code_verifier = verifier;
  request_id = codes "req-2";
  now = now;
}

-- The callback of the service, for a request with offline_access.
abbrev mint_code : ℕ → Authority → Result Minted
mint_code attempt authority = ok (record {
  access_token_id = 30;
  jti_hash = repeat 32 6;
  access_token = codes "jwt";
  id_token = codes "id";
  issued_at = authority.issued_at;
  access_expires_at = authority.issued_at + 10 * minute;
  id_expires_at = authority.issued_at + 5 * minute;
  initial_refresh = some (record {
    family_id = 31;
    token_id = 32;
    token_hash = hash_refresh_token digest token_a;
    clear_token = token_a;
    expires_at = authority.issued_at + 30 * day;
    absolute_expires_at = authority.issued_at + 90 * day;
  });
})

abbrev tokens : Response
tokens = record {
  access_token = codes "jwt";
  token_type = codes "Bearer";
  expires_in = 600;
  id_token = codes "id";
  refresh_token = token_a;
  scope = codes "offline_access openid profile";
}

abbrev redeemed_conn : Conn
redeemed_conn =
    conn_of (exchange_authorization_code digest alone mint_code redemption (quiet code_store))

redeems :
    exchange_authorization_code digest alone mint_code redemption (quiet code_store)
    ≡ returned tokens redeemed_conn
unfolding exchange_authorization_code encode hash_code hash_refresh_token new_code
    one_issuer.Audit.compact one_issuer.Audit.new_event one_issuer.Audit.valid_event
    one_issuer.Scope.canonical_scopes one_issuer.Scope.difference one_issuer.Scope.intersection
    one_issuer.Scope.sorted_set one_issuer.Scope.subset one_issuer.Scope.supported
    one_issuer.Store.Code.audit_initial one_issuer.Store.Code.exchange_code_tx
    one_issuer.Store.Code.redeem_code one_issuer.Store.Code.redeem_writes
    one_issuer.Store.Code.replay_code one_issuer.Store.Code.report_code
    one_issuer.Store.Code.start_family one_issuer.Store.Minted.valid_minted_tokens
    one_issuer.Store.Locks.lock_active_user one_issuer.Store.Locks.lock_grant
    one_issuer.Store.Locks.lock_same_client one_issuer.Store.Locks.same_authenticated_client
    one_issuer.Store.Queries.consume_authorization_code one_issuer.Store.Queries.create_access_token
    one_issuer.Store.Queries.create_refresh_token
    one_issuer.Store.Queries.create_refresh_token_family one_issuer.Store.Queries.find_client
    one_issuer.Store.Queries.has_authorization_code_exchange_rejection
    one_issuer.Store.Queries.insert_protocol_audit one_issuer.Store.Queries.load_client_children
    one_issuer.Store.Queries.lock_authorization_code_by_hash
    one_issuer.Store.Queries.lock_consent_grant_by_user_client
    one_issuer.Store.Queries.lock_oidc_client_by_id one_issuer.Store.Queries.lock_user_by_id
    one_issuer.Store.Refresh.digest_is one_issuer.Store.begin_tx one_issuer.Store.commit
    one_issuer.Store.in_tx one_issuer.Store.in_tx_from one_issuer.Store.is_retryable
    one_issuer.Store.query one_issuer.Store.select one_issuer.Text.Ascending.keys
    one_issuer.Text.Base64.decode one_issuer.Text.Base64.digit_of one_issuer.Text.Base64.value_of
    one_issuer.Text.Sort.contains one_issuer.Text.Sort.has_repeat one_issuer.Text.Sort.insert_string
    one_issuer.Text.Sort.search_strings one_issuer.Text.Sort.sort_strings one_issuer.Text.drop
    one_issuer.Text.has_prefix one_issuer.Text.join_space one_issuer.Text.mem one_issuer.Text.str_lt
    one_issuer.Token.Secret.decodes_to_length one_issuer.Token.Secret.digest_presented_refresh_token
    one_issuer.Token.Secret.is_verifier_character one_issuer.Token.Secret.valid_verifier
    one_issuer.Token.Secret.verify_s256 one_issuer.Token.Secret.well_formed str_eq valid_request_id
redeems = refl

exchange_authorization_code-IsCodeAuthorized_example :
    (n : ℕ) × IsCodeAuthorized digest (start_db alone code_store (suc n)) redemption tokens
exchange_authorization_code-IsCodeAuthorized_example =
    exchange_authorization_code-IsCodeAuthorized digest alone mint_code redemption
      (quiet code_store) redeemed_conn tokens redeems

exchange_authorization_code_once_example :
    exchange_authorization_code digest alone mint_code redemption redeemed_conn
    ≢ returned tokens redeemed_conn
exchange_authorization_code_once_example =
    exchange_authorization_code_once digest alone mint_code redemption redemption (quiet code_store)
      redeemed_conn redeemed_conn redeemed_conn tokens tokens (λ n db h. h) refl redeems (λ h. h)

abbrev used_code : AuthorizationCode
used_code = record issued { consumed_at = some now }

abbrev used_code_store : Db
used_code_store = record store { codes = used_code ∷ [] }

redemption-WellPosed : WellPosed digest alone mint_code redemption
unfolding hash_code encode new_code one_issuer.Text.Base64.digit_of one_issuer.Text.drop str_eq
redemption-WellPosed = record {
  size = refl;
  client_set = refl;
  redirect_set = refl;
  verifier_set = refl;
  now_set = refl;
}

used_code_found :
    find (λ r. str_eq r.code_hash redemption.code_hash) used_code_store.codes ≡ some used_code
unfolding str_eq encode hash_code new_code one_issuer.Text.Base64.digit_of one_issuer.Text.drop
used_code_found = refl

exchange_authorization_code-replay_example :
    (left : Db) × (exchange_authorization_code digest alone mint_code redemption
        (quiet used_code_store)
      ≡ raised invalid_grant (quiet left))
    × (any (is_of_kind 1 9) left.audits ≡ true)
    × (record left { audits = used_code_store.audits } ≡ used_code_store)
    × (any (is_of_kind 1 9) used_code_store.audits ≡ true → left ≡ used_code_store)
unfolding valid_request_id
exchange_authorization_code-replay_example =
    exchange_authorization_code-replay digest alone mint_code used_code_store redemption used_code
      now redemption-WellPosed used_code_found refl refl refl
