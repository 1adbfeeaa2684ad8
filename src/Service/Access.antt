-- ===== src/Service/Access.antt =====
-- UserInfoForAccessToken, accessAuthorityMatches, introspectAccess and Introspect of internal/token:
-- what an Access Token tells of its User, and to whom.
use one_issuer.Base.{
  ℕ, ◌*◌, Bool, true, false, not, ◌&&◌, ◌||◌, Option, none, some, List, [], ◌∷◌, ◌++◌, length, leb,
  ltb, ◌==◌, if◌then◌else◌, is_empty, is_some,
}
use one_issuer.Errors.{Error, Result, ok, err, invalid_token}
use one_issuer.Text.{Bytes, codes, str_eq, strs_eq, mem, join_space}
use one_issuer.Text.Split.{has_outer_space}
use one_issuer.Domain.{
  User, Client, Grant, is_active, is_confidential, is_secret_basic, active_client,
}
use one_issuer.Scope.{openid, canonical_scopes, intersection, difference, subset}
use one_issuer.Token.{
  RefreshFamily, AccessMetadata, IssuanceSource, authorization_code, refresh_token,
}
use one_issuer.Token.Secret.{hash_jti}
use one_issuer.Token.Narrowing.{canonical_refresh_scopes}
use one_issuer.Store.{Db, Conn, Outcome, returned, raised, Tx, ◌>>=◌, pure, raise}
use one_issuer.Store.Snapshot.Access.{AccessAuthority, get_access_token_authority}
use one_issuer.Introspection.{
  IntrospectionInput, IntrospectionResponse, inactive, introspect_refresh,
}
use one_issuer.Service.Claims.{AccessTokenClaims, UserInfo, unix, user_info_of, parse_scope_claim}
use one_issuer.Service.Verify.{Jose, verify_access_token}
pub mod Scopes
pub mod Agreement
pub mod Release
pub mod Answered

-- `optional != nil && *optional == n`
abbrev pub points_to : Option ℕ → ℕ → Bool
points_to none n = false
points_to (some m) n = m == n

-- The rows agree with one another and the token is live.
unfoldable pub rows_current : AccessAuthority → ℕ → Bool
rows_current a now =
    not (a.metadata.id == 0)
    && not (a.metadata.consent_grant_id == 0)
    && not (is_some a.metadata.revoked_at)
    && not (a.metadata.user_id == 0)
    && not (a.metadata.client_id == 0)
    && (length a.metadata.jti_hash == 32)
    && ltb now a.metadata.expires_at
    && not (a.metadata.issued_at == 0)
    && ltb a.metadata.issued_at a.metadata.expires_at
    && (a.user.id == a.metadata.user_id)
    && is_active a.user.status
    && (a.client.id == a.metadata.client_id)
    && active_client a.client
    && (a.grant.id == a.metadata.consent_grant_id)
    && (a.grant.user_id == a.metadata.user_id)
    && (a.grant.client_id == a.metadata.client_id)
    && leb 1 a.grant.version
    && not (is_some a.grant.revoked_at)

-- The references of the two sources of a token.
abbrev pub source_fits : IssuanceSource → AccessMetadata → Bool
source_fits authorization_code m = not (is_some m.source_refresh_token_id)
source_fits refresh_token m =
    not (is_some m.authorization_code_id)
    && is_some m.source_refresh_token_id
    && is_some m.refresh_family_id
    && is_some m.session_binding_id

abbrev pub within_family : List Bytes → Result (List Bytes) → Bool
within_family scopes (err e) = false
within_family scopes (ok family_scopes) = subset scopes family_scopes

unfoldable pub family_current : List Bytes → AccessMetadata → ℕ → ℕ → RefreshFamily → Bool
family_current scopes m now id family =
    (family.id == id)
    && not (is_some family.revoked_at)
    && ltb now family.absolute_expires_at
    && (family.user_id == m.user_id)
    && (family.client_id == m.client_id)
    && (family.consent_grant_id == m.consent_grant_id)
    && points_to m.session_binding_id family.session_binding_id
    && within_family scopes (canonical_refresh_scopes family.scopes)

-- A token has a family exactly where its metadata names one, and the family is live.
abbrev pub family_fits : List Bytes → AccessMetadata → ℕ → Option ℕ → Option RefreshFamily → Bool
family_fits scopes m now none none = true
family_fits scopes m now none (some family) = false
family_fits scopes m now (some id) none = false
family_fits scopes m now (some id) (some family) = family_current scopes m now id family

abbrev pub same_scopes : List Bytes → Result (List Bytes) → Bool
same_scopes scopes (err e) = false
same_scopes scopes (ok claim_scopes) = strs_eq scopes claim_scopes

-- The Scopes are those of the claim, and the Client and the Grant still have them.
unfoldable pub scopes_fit : List Bytes → AccessAuthority → AccessTokenClaims → Bool
scopes_fit scopes a claims =
    same_scopes scopes (parse_scope_claim claims.scope)
    && subset scopes a.client.scopes
    && is_empty (difference scopes (intersection a.grant.scopes a.client.scopes))

abbrev pub family_part : Option RefreshFamily → List Bytes → List Bytes
family_part none effective = effective
family_part (some family) effective = intersection effective family.scopes

-- What is left of the token's Scopes.
unfoldable pub effective_access_scopes : AccessAuthority → List Bytes
effective_access_scopes a =
    family_part a.family
      (intersection a.metadata.scopes (intersection a.grant.scopes a.client.scopes))

module _ (sha256 : Bytes → Bytes) (jose : Jose) (issuer : Bytes) (clock_skew : ℕ)
    (others : ℕ → Db → Db) where
  abbrev pub userinfo_audience : Bytes
  userinfo_audience = issuer ++ codes "/oauth2/userinfo"

  unfoldable pub claims_fit : AccessAuthority → AccessTokenClaims → Bool
  claims_fit a claims =
      str_eq claims.issuer issuer
      && str_eq claims.audience userinfo_audience
      && str_eq claims.subject a.user.subject
      && str_eq claims.client_id a.client.client_id
      && (claims.issued_at == unix a.metadata.issued_at)
      && (claims.expires_at == unix a.metadata.expires_at)
      && str_eq (hash_jti sha256 claims.jwt_id) a.metadata.jti_hash

  abbrev pub scopes_match : AccessAuthority → AccessTokenClaims → ℕ → Result (List Bytes) → Bool
  scopes_match a claims now (err e) = false
  scopes_match a claims now (ok scopes) =
      rows_current a now
      && source_fits a.metadata.issuance_source a.metadata
      && family_fits scopes a.metadata now a.metadata.refresh_family_id a.family
      && scopes_fit scopes a claims
      && claims_fit a claims

  -- `accessAuthorityMatches`
  unfoldable pub access_authority_matches : AccessAuthority → AccessTokenClaims → ℕ → Bool
  access_authority_matches a claims now =
      scopes_match a claims now (canonical_scopes a.metadata.scopes)

  abbrev pub verified : Bytes → ℕ → Result AccessTokenClaims
  verified = verify_access_token jose issuer userinfo_audience clock_skew

  abbrev pub told : AccessTokenClaims → ℕ → AccessAuthority → Tx UserInfo
  told claims now a =
      if access_authority_matches a claims now
      then pure (user_info_of a.metadata.scopes a.user)
      else raise invalid_token

  abbrev pub user_info_of_claims : ℕ → Result AccessTokenClaims → Tx UserInfo
  user_info_of_claims now (err e) = raise invalid_token
  user_info_of_claims now (ok claims) =
      get_access_token_authority others (hash_jti sha256 claims.jwt_id) now >>= told claims now

  unfoldable pub user_info_for_access_token : Bytes → ℕ → Tx UserInfo
  user_info_for_access_token compact now = user_info_of_claims now (verified compact now)

  abbrev pub active_access : AccessAuthority → List Bytes → IntrospectionResponse
  active_access a effective = record {
    active = true;
    token_type = codes "Bearer";
    client_id = a.client.client_id;
    scope = join_space effective;
    subject = a.user.subject;
    issuer = issuer;
    audience = userinfo_audience;
    issued_at = unix a.metadata.issued_at;
    expires_at = unix a.metadata.expires_at;
  }

  unfoldable pub judged_access :
      IntrospectionInput → AccessTokenClaims → AccessAuthority → IntrospectionResponse
  judged_access input claims a =
      if not (a.client.id == input.client.id)
        || not (str_eq a.client.client_id input.client.client_id)
        || not (access_authority_matches a claims input.now)
      then inactive
      else if is_empty (effective_access_scopes a) || not (mem openid (effective_access_scopes a))
      then inactive
      else active_access a (effective_access_scopes a)

  abbrev pub is_invalid_token : Error → Bool
  is_invalid_token invalid_token = true
  is_invalid_token _ = false

  -- `if errors.Is(err, ErrInvalidToken) { return other }`
  abbrev pub unless_invalid_token : {A B : Type 0} → Tx A → Tx B → (A → Tx B) → Tx B
  unless_invalid_token m other next c = elim (m c) [
    | returned a c1 ↦ next a c1
    | raised e c1 ↦ if is_invalid_token e then other c1 else raised e c1
  ]

  -- `none` where the value is not an Access Token of this issuer.
  abbrev pub introspect_claims :
      IntrospectionInput → Result AccessTokenClaims → Tx (Option IntrospectionResponse)
  introspect_claims input (err e) = pure none
  introspect_claims input (ok claims) =
      unless_invalid_token
        (get_access_token_authority others (hash_jti sha256 claims.jwt_id) input.now)
        (pure (some inactive)) (λ a. pure (some (judged_access input claims a)))

  unfoldable pub introspect_access : IntrospectionInput → Tx (Option IntrospectionResponse)
  introspect_access input = introspect_claims input (verified input.token input.now)

  -- `if response, found, err := …; err != nil || found { return response, err }`
  abbrev pub or_else :
      Tx (Option IntrospectionResponse) → Tx IntrospectionResponse → Tx IntrospectionResponse
  or_else m rest = m >>= λ o. elim o [ none ↦ rest | some response ↦ pure response ]

  unfoldable pub introspection_input_refused : IntrospectionInput → Bool
  introspection_input_refused input =
      not (is_confidential input.client.type)
      || not (is_secret_basic input.client.token_endpoint_auth_method)
      || not (active_client input.client)
      || (input.now == 0)
      || is_empty input.token
      || ltb (16 * 1024) (length input.token)
      || has_outer_space input.token

  unfoldable pub introspect : IntrospectionInput → Tx IntrospectionResponse
  introspect input =
      if introspection_input_refused input
      then pure inactive
      else if str_eq input.hint (codes "refresh_token")
      then or_else (introspect_refresh sha256 issuer others input)
          (or_else (introspect_access input) (pure inactive))
      else or_else (introspect_access input)
          (or_else (introspect_refresh sha256 issuer others input) (pure inactive))
