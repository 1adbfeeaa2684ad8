-- ===== src/Tests/Services.antt =====
-- Runs of the token service: UserInfo and introspection of an Access Token.
use one_issuer.Base.{ℕ, suc, ◌+◌, ◌-◌, ◌*◌, ◌≡◌, refl, true, false, none, some, [], ◌∷◌}
use one_issuer.Errors.{ok}
use one_issuer.Text.{Bytes, codes, mem}
use one_issuer.Text.Base64.{AreBytes, encode}
use one_issuer.Domain.{Client, confidential, client_secret_basic}
use one_issuer.Scope.{openid, profile, offline_access}
use one_issuer.Token.{
  Authority, Minted, RefreshAuthority, RefreshMinted, AccessMetadata, authorization_code, second,
  minute, hour, day,
}
use one_issuer.Token.Secret.{hash_jti, refresh_token_prefix}
use one_issuer.Store.{Db, Conn, returned}
use one_issuer.Store.Quiet.{quiet}
use one_issuer.Store.Transaction.{start_db}
use one_issuer.Introspection.{IntrospectionInput, IntrospectionResponse}
use one_issuer.Service.Claims.{AccessTokenClaims, UserInfo, unix, new_jti}
use one_issuer.Service.Verify.{Jose, rs256}
use one_issuer.Service.Access.{verified, user_info_for_access_token, introspect_access}
use one_issuer.Service.Access.Agreement.{introspect_access-UserInfo}
use one_issuer.Service.Access.Release.{IsReleased, user_info_for_access_token-IsReleased}
use one_issuer.Tests.Samples.{app, store, now, alone, repeat}
use one_issuer.Tests.Minting.{sha256, settings}
use one_issuer.Service.Access.{introspect}
use one_issuer.Service.Access.Answered.{introspect-answers}

abbrev jti : Bytes
jti = codes "jti_BQUFBQUFBQUFBQUFBQUFBQ"

-- The Access Token that minted is stored as.
abbrev access : AccessMetadata
access = record {
  id = 77;
  jti_hash = repeat 32 7;
  authorization_code_id = some 9;
  consent_grant_id = 3;
  user_id = 1;
  client_id = 2;
  scopes = openid ∷ profile ∷ [];
  issued_at = now - minute;
  expires_at = now + 9 * minute;
  issuance_source = authorization_code;
  source_refresh_token_id = none;
  refresh_family_id = none;
  origin_session_id = none;
  session_binding_id = none;
  revoked_at = none;
  revoke_reason = [];
}

abbrev backend : Client
backend = record app { type = confidential; token_endpoint_auth_method = client_secret_basic }

abbrev with_access : Db
with_access = record store { accesses = access ∷ []; clients = backend ∷ [] }

abbrev claims : AccessTokenClaims
claims = record {
  issuer = settings.issuer;
  subject = codes "alice";
  audience = codes "https://issuer.example.com/oauth2/userinfo";
  client_id = codes "app";
  scope = codes "openid profile";
  issued_at = unix (now - minute);
  expires_at = unix (now + 9 * minute);
  jwt_id = jti;
}

-- A library that reads every text as these claims, signed by the one key.
abbrev jose : Jose
jose = record {
  parse_signed_compact = λ compact. some (record {
    signatures = 1;
    algorithm = rs256;
    key_id = codes "k1";
    has_jwk = false;
    nonce = [];
    typ = some (codes "at+jwt");
    extra_headers = 1;
  });
  public_keys =
      record {
        key_id = codes "k1";
        algorithm = rs256;
        use_for = codes "sig";
        is_public = true;
        rsa_bits = some 2048;
      }
      ∷ [];
  verify = λ compact key. some compact;
  decode_claims = λ payload. some claims;
}

abbrev told : UserInfo
told = record {
  subject = codes "alice";
  name = some (codes "Alice");
  preferred_username = some (codes "alice");
  email = none;
  email_verified = none;
}

answers :
    user_info_for_access_token sha256 jose settings.issuer minute alone
      (codes "a.b.c")
      now
      (quiet with_access)
    ≡ returned told (quiet with_access)
unfolding user_info_for_access_token hash_jti mem one_issuer.Scope.canonical_scopes
    one_issuer.Scope.difference one_issuer.Scope.intersection one_issuer.Scope.sorted_set
    one_issuer.Scope.subset one_issuer.Scope.supported
    one_issuer.Service.Access.access_authority_matches one_issuer.Service.Access.claims_fit
    one_issuer.Service.Access.family_current one_issuer.Service.Access.rows_current
    one_issuer.Service.Access.scopes_fit one_issuer.Service.Claims.parse_scope_claim
    one_issuer.Service.Claims.user_info_of one_issuer.Service.Claims.valid_jti
    one_issuer.Service.Verify.bad_compact one_issuer.Service.Verify.claims_refused
    one_issuer.Service.Verify.key_matches one_issuer.Service.Verify.longer_than_30_minutes
    one_issuer.Service.Verify.select_key one_issuer.Service.Verify.valid_header
    one_issuer.Service.Verify.verify_access_token one_issuer.Store.Queries.find_client
    one_issuer.Store.Queries.load_client_children
    one_issuer.Store.Queries.lock_consent_grant_by_user_client
    one_issuer.Store.Queries.lock_oidc_client_by_id
    one_issuer.Store.Queries.lock_refresh_token_family_by_id
    one_issuer.Store.Queries.lock_user_by_id one_issuer.Store.Revoke.lock_whole_client
    one_issuer.Store.Snapshot.Access.access_snapshot
    one_issuer.Store.Snapshot.Access.family_of_access
    one_issuer.Store.Snapshot.Access.get_access_token_authority
    one_issuer.Store.Queries.get_access_token_by_jti_hash one_issuer.Store.begin_tx
    one_issuer.Store.commit one_issuer.Store.in_tx one_issuer.Store.in_tx_from
    one_issuer.Store.is_retryable one_issuer.Store.query one_issuer.Store.select
    one_issuer.Text.Ascending.keys one_issuer.Text.Base64.decode one_issuer.Text.Base64.value_of
    one_issuer.Text.Sort.contains one_issuer.Text.Sort.has_repeat one_issuer.Text.Sort.insert_string
    one_issuer.Text.Sort.search_strings one_issuer.Text.Sort.sort_strings
    one_issuer.Text.Split.contains_any one_issuer.Text.Split.count_byte
    one_issuer.Text.Split.ends_with_space one_issuer.Text.Split.has_outer_space
    one_issuer.Text.Split.is_ascii_space one_issuer.Text.Split.split_on
    one_issuer.Text.Split.starts_with_space one_issuer.Text.drop one_issuer.Text.has_prefix
    one_issuer.Text.join_space one_issuer.Text.str_eq one_issuer.Text.str_lt one_issuer.Text.strs_eq
    one_issuer.Token.Narrowing.canonical_refresh_scopes one_issuer.Token.Secret.decodes_to_length
answers = refl

user_info_for_access_token-IsReleased_example :
    (n : ℕ) × IsReleased sha256 jose settings.issuer minute alone
      (start_db alone with_access (suc n))
      (codes "a.b.c")
      now
      told
user_info_for_access_token-IsReleased_example =
    user_info_for_access_token-IsReleased sha256 jose settings.issuer minute alone (codes "a.b.c")
      now (quiet with_access) (quiet with_access) told answers

abbrev question : IntrospectionInput
question = record { client = backend; token = codes "a.b.c"; hint = []; now = now }

abbrev answer : IntrospectionResponse
answer = record {
  active = true;
  token_type = codes "Bearer";
  client_id = codes "app";
  scope = codes "openid profile";
  subject = codes "alice";
  issuer = settings.issuer;
  audience = codes "https://issuer.example.com/oauth2/userinfo";
  issued_at = unix (now - minute);
  expires_at = unix (now + 9 * minute);
}

introspects_access :
    introspect_access sha256 jose settings.issuer minute alone question (quiet with_access)
    ≡ returned (some answer) (quiet with_access)
unfolding introspect_access hash_jti mem one_issuer.Scope.canonical_scopes
    one_issuer.Scope.difference one_issuer.Scope.intersection one_issuer.Scope.sorted_set
    one_issuer.Scope.subset one_issuer.Scope.supported
    one_issuer.Service.Access.access_authority_matches one_issuer.Service.Access.claims_fit
    one_issuer.Service.Access.effective_access_scopes one_issuer.Service.Access.family_current
    one_issuer.Service.Access.judged_access one_issuer.Service.Access.rows_current
    one_issuer.Service.Access.scopes_fit one_issuer.Service.Claims.parse_scope_claim
    one_issuer.Service.Claims.valid_jti one_issuer.Service.Verify.bad_compact
    one_issuer.Service.Verify.claims_refused one_issuer.Service.Verify.key_matches
    one_issuer.Service.Verify.longer_than_30_minutes one_issuer.Service.Verify.select_key
    one_issuer.Service.Verify.valid_header one_issuer.Service.Verify.verify_access_token
    one_issuer.Store.Queries.find_client one_issuer.Store.Queries.load_client_children
    one_issuer.Store.Queries.lock_consent_grant_by_user_client
    one_issuer.Store.Queries.lock_oidc_client_by_id
    one_issuer.Store.Queries.lock_refresh_token_family_by_id
    one_issuer.Store.Queries.lock_user_by_id one_issuer.Store.Revoke.lock_whole_client
    one_issuer.Store.Snapshot.Access.access_snapshot
    one_issuer.Store.Snapshot.Access.family_of_access
    one_issuer.Store.Snapshot.Access.get_access_token_authority
    one_issuer.Store.Queries.get_access_token_by_jti_hash one_issuer.Store.begin_tx
    one_issuer.Store.commit one_issuer.Store.in_tx one_issuer.Store.in_tx_from
    one_issuer.Store.is_retryable one_issuer.Store.query one_issuer.Store.select
    one_issuer.Text.Ascending.keys one_issuer.Text.Base64.decode one_issuer.Text.Base64.value_of
    one_issuer.Text.Sort.contains one_issuer.Text.Sort.has_repeat one_issuer.Text.Sort.insert_string
    one_issuer.Text.Sort.search_strings one_issuer.Text.Sort.sort_strings
    one_issuer.Text.Split.contains_any one_issuer.Text.Split.count_byte
    one_issuer.Text.Split.ends_with_space one_issuer.Text.Split.has_outer_space
    one_issuer.Text.Split.is_ascii_space one_issuer.Text.Split.split_on
    one_issuer.Text.Split.starts_with_space one_issuer.Text.drop one_issuer.Text.has_prefix
    one_issuer.Text.join_space one_issuer.Text.str_eq one_issuer.Text.str_lt one_issuer.Text.strs_eq
    one_issuer.Token.Narrowing.canonical_refresh_scopes one_issuer.Token.Secret.decodes_to_length
introspects_access = refl

introspect_access-UserInfo_example :
    (info : UserInfo) × (found : AccessTokenClaims) × (user_info_for_access_token sha256 jose
        settings.issuer minute alone
        (codes "a.b.c")
        now
        (quiet with_access)
      ≡ returned info (quiet with_access))
    × (info.subject ≡ codes "alice")
    × (verified sha256 jose settings.issuer minute alone (codes "a.b.c") now ≡ ok found)
    × (codes "openid profile" ≡ found.scope)
    × (codes "app" ≡ found.client_id)
    × (codes "app" ≡ codes "app")
introspect_access-UserInfo_example =
    introspect_access-UserInfo sha256 jose settings.issuer minute alone question (quiet with_access)
      (quiet with_access) answer introspects_access refl

introspect-answers_example :
    (response : IntrospectionResponse) × (c' : Conn) × (introspect sha256 jose settings.issuer
        minute alone question
        (quiet with_access)
      ≡ returned response c')
    × (c'.faults ≡ [])
introspect-answers_example =
    introspect-answers sha256 jose settings.issuer minute alone question (quiet with_access) refl
